-- ===== src/Buffer/Overrun.antt =====
-- `get_raw` asks only that the cursor is not at the end.
use swift_snails.Base.{
  ℕ, ◌+◌, ◌≡◌, ◌≤◌, ◌<◌, List, [], abort, check_failed, length, arith, Returns, take, drop,
  length-take, length-drop,
}
use swift_snails.Buffer.{Buffer, copy_out, read_finished, get_raw}
use swift_snails.Buffer.Contents.{Holds, cursor-end}

-- A read at the end of the data is refused, whatever its size.
get_raw_at_end :
    {stored : List ℕ} (n : ℕ) (b : Buffer) → Holds stored [] b → get_raw n b ≡ abort check_failed
unfolding get_raw read_finished
get_raw_at_end n b h = ground (arith, cursor-end b h)

-- With some data left but less than the value's n bytes, `get_raw` still returns n bytes, the last
-- ones from behind `_end`; the cursor is then past the end, and the next `read_finished` aborts.
get_raw_overrun :
    {stored rest : List ℕ} (n : ℕ) (b : Buffer)
    → Holds stored rest b
    → 0 < length rest
    → length rest < n
    → b.cursor + n ≤ b.capacity
    → Returns
        (get_raw n b)
        λ r. (length r.0 ≡ n) × (b.end < r.1.cursor) × (read_finished r.1 ≡ abort check_failed)
unfolding get_raw read_finished copy_out
get_raw_overrun n b h some_left short inside =
    let bytes = take n (drop b.cursor h.bytes) in
    (
      (bytes, record b { cursor = b.cursor + n }),
      ground (arith, cursor-end b h),
      (
        omega (arith, length-take n (drop b.cursor h.bytes), length-drop b.cursor h.bytes),
        omega (arith, cursor-end b h),
        ground (arith, cursor-end b h),
      ),
    )
