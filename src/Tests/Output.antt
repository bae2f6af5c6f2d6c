-- ===== src/Tests/Output.antt =====
-- Runs and instances for bop_io.c and ary_bitmap.c.
use cbop.Prelude.{
  ℕ, ◌+◌, ◌*◌, ◌%◌, ◌^◌, ◌≤◌, ◌<◌, ◌≡◌, refl, true, List, [], ◌∷◌, ◌++◌, none, some, arith, ◌==◌,
  if◌then◌else◌, suc,
}
use cbop.Task.{TaskStatus}
use cbop.Bitmap.{ary_map_entries, MonitorCall, scan_ary_maps}
use cbop.Bitmap.Scan.{ary_map_entries-bounds, reports}
use cbop.Bitmap.Marks.{
  ElemOp, use_elem, promise_elem, used, promised, mark_elems, scan_ary_maps-reports,
}
use cbop.Prelude.Word.{max_addr}
use cbop.Io.{OutputBuffer, Output, wrote, bop_printf, string_of, io_group_succ}
use cbop.Io.Store.{IsBuffer, Stored, bop_printf-Stored}
use cbop.Io.Group.{io_group_succ-joined, bop_printf-short}

-- A buffer of three bytes with one letter.
abbrev letter : ℕ → OutputBuffer
letter c = record { alloc = 3; used = 2; content = some (λ i. if i == 0 then c else 0) }

letter-IsBuffer : (c : ℕ) → IsBuffer (letter (suc c)) (suc c ∷ [])
letter-IsBuffer c = record {
  block = λ i. if i == 0 then suc c else 0;
  own = refl;
  held = (refl, omega arith, tt);
  closed = refl;
  counted = refl;
  fits = omega arith;
}

abbrev output : Output
output = record {
  num_buffers = 2;
  output_buffers = some (letter 66 ∷ letter 67 ∷ []);
  undy_buffer = letter 65;
  stdout = 90 ∷ [];
}

bop_printf-Stored_example :
    (b' : OutputBuffer) × (bop_printf 9 true (λ i. 7) TaskStatus.undy (some (97 ∷ 98 ∷ [])) output
      ≡ wrote 2 (record output { undy_buffer = b' }))
    × Stored (65 ∷ []) (97 ∷ 98 ∷ []) output.undy_buffer b'
bop_printf-Stored_example =
    bop_printf-Stored 9 (λ i. 7) (65 ∷ []) (97 ∷ 98 ∷ []) output (letter-IsBuffer 64)
      (omega arith, (omega arith, tt)) (omega arith) (omega arith)

bop_printf-short_example :
    (b' : OutputBuffer) × (bop_printf 9 true (λ i. 7) TaskStatus.undy (some (97 ∷ [])) output
      ≡ wrote 1 (record output { undy_buffer = b' }))
    × (string_of b' ≡ 65 ∷ [])
    × (b'.used ≡ b'.alloc)
bop_printf-short_example =
    bop_printf-short 9 true (λ i. 7) (65 ∷ []) [] 97 output (letter-IsBuffer 64) tt refl
      (omega arith)

io_group_succ-joined_example :
    (o' : Output) × (io_group_succ output ≡ some o')
    × (o'.stdout ≡ 90 ∷ 66 ∷ 67 ∷ [])
    × (o'.output_buffers ≡ none)
    × (o'.undy_buffer.content ≡ none)
io_group_succ-joined_example =
    io_group_succ-joined output (letter 66 ∷ letter 67 ∷ []) ((66 ∷ []) ∷ (67 ∷ []) ∷ []) refl refl
      (letter-IsBuffer 65, (letter-IsBuffer 66, tt))

-- An array of 40 elements of 8 bytes at 1000.
ary_map_entries-bounds_example :
    (40 ≤ ary_map_entries 40 * 32) × (ary_map_entries 40 * 32 < 40 + 32)
ary_map_entries-bounds_example = ary_map_entries-bounds 40

abbrev marks : List ElemOp
marks = use_elem 3 ∷ promise_elem 33 ∷ use_elem 39 ∷ []

no_wrap : 1000 + (8 * 40) % 2 ^ 32 + ary_map_entries 40 * 8 ≤ max_addr
unfolding ary_map_entries
no_wrap = omega arith

scan_ary_maps-reports_example :
    scan_ary_maps 1000 40 8 (mark_elems 1000 40 8 marks (λ a. 255))
    ≡ reports 1000 8 MonitorCall.read (used marks) (ary_map_entries 40 * 32) 0
      ++ reports 1000 8 MonitorCall.write (promised marks) (ary_map_entries 40 * 32) 0
scan_ary_maps-reports_example =
    scan_ary_maps-reports 1000 40 8 marks (λ a. 255) no_wrap
      (omega arith, (omega arith, (omega arith, tt)))
