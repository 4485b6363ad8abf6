-- ===== src/Sse/Scan.antt =====
-- `find_event_end` of src/sse.rs.
use inference_io.Prelude.{
  ℕ, zero, suc, ◌+◌, ◌≤◌, ◌<◌, ◌≡◌, refl, Bool, false, ◌&&◌, ◌||◌, List, [], ◌∷◌, ◌++◌, Option,
  none, some, arith, leb, ◌==◌, if◌then◌else◌, length, take,
}

abbrev pub cr : ℕ
cr = 13

abbrev pub lf : ℕ
lf = 10

abbrev pub is_line_end : ℕ → Bool
is_line_end b = b == lf || b == cr

-- The loop from `index`, over the bytes from there on. The last byte has no byte after it; `\r\n`
-- counts as one line end.
unfoldable pub scan : ℕ → ℕ → List ℕ → Option ℕ
scan index line_ends [] = none
scan index line_ends (b ∷ []) =
    let counted = (if is_line_end b then line_ends + 1 else 0) in
    if leb 2 counted then some (index + 1) else none
scan index line_ends (b ∷ c ∷ rest) =
    let after_pair = scan (index + 2) (line_ends + 1) rest in
    let after_end = scan (index + 1) (line_ends + 1) (c ∷ rest) in
    let after_other = scan (index + 1) 0 (c ∷ rest) in
    let done = leb 2 (line_ends + 1) in
    if b == cr && c == lf
    then (if done then some (index + 2) else after_pair)
    else if is_line_end b
    then (if done then some (index + 1) else after_end)
    else after_other

unfoldable pub find_event_end : List ℕ → Option ℕ
unfolding scan
find_event_end bytes = scan 0 0 bytes

pub find_event_end_lem : (bytes : List ℕ) → find_event_end bytes ≡ scan 0 0 bytes
unfolding find_event_end
find_event_end_lem bytes = refl

-- Whether the last byte is a carriage return, whose line feed may be still to come.
abbrev pub ends_in_cr : List ℕ → Bool
ends_in_cr [] = false
ends_in_cr (b ∷ []) = b == cr
ends_in_cr (b ∷ c ∷ rest) = ends_in_cr (c ∷ rest)

scan_bounds :
    (index line_ends : ℕ) (bytes : List ℕ) (end : ℕ)
    → scan index line_ends bytes ≡ some end
    → (index < end) × (end ≤ index + length bytes)
unfolding scan
scan_bounds index line_ends [] end h = ground arith
scan_bounds index line_ends (b ∷ []) end h = ground arith
scan_bounds index line_ends (b ∷ c ∷ rest) end h = ground (
  arith,
  scan_bounds (index + 2) (line_ends + 1) rest end,
  scan_bounds (index + 1) (line_ends + 1) (c ∷ rest) end,
  scan_bounds (index + 1) 0 (c ∷ rest) end,
)

pub find_event_end-nil : find_event_end [] ≡ none
unfolding find_event_end
find_event_end-nil = refl

pub find_event_end_bounds :
    (bytes : List ℕ) (end : ℕ) → find_event_end bytes ≡ some end → (0 < end) × (end ≤ length bytes)
unfolding find_event_end
find_event_end_bounds bytes end h = ground (arith, scan_bounds 0 0 bytes end h)

-- What is found stays where it is when more bytes arrive.
scan-append :
    (index line_ends : ℕ) (bytes more : List ℕ) (end : ℕ)
    → ends_in_cr bytes ≡ false
    → scan index line_ends bytes ≡ some end
    → scan index line_ends (bytes ++ more) ≡ some end
unfolding scan
scan-append index line_ends [] more end c h = ground arith
scan-append index line_ends (b ∷ []) [] end c h = h
scan-append index line_ends (b ∷ []) (m ∷ more) end c h = ground arith
scan-append index line_ends (b ∷ d ∷ []) more end c h = ground (
  arith,
  scan-append (index + 1) (line_ends + 1) (d ∷ []) more end c,
  scan-append (index + 1) 0 (d ∷ []) more end c,
)
scan-append index line_ends (b ∷ d ∷ e ∷ rest) more end c h = ground (
  arith,
  scan-append (index + 2) (line_ends + 1) (e ∷ rest) more end c,
  scan-append (index + 1) (line_ends + 1) (d ∷ e ∷ rest) more end c,
  scan-append (index + 1) 0 (d ∷ e ∷ rest) more end c,
)

pub find_event_end-append :
    (bytes more : List ℕ) (end : ℕ)
    → ends_in_cr bytes ≡ false
    → find_event_end bytes ≡ some end
    → find_event_end (bytes ++ more) ≡ some end
unfolding find_event_end
find_event_end-append bytes more end c h = scan-append 0 0 bytes more end c h

-- Bytes with no end put the end beyond them, if they do not stop inside a line end.
scan_beyond :
    (index line_ends : ℕ) (bytes more : List ℕ) (end : ℕ)
    → ends_in_cr bytes ≡ false
    → scan index line_ends bytes ≡ none
    → scan index line_ends (bytes ++ more) ≡ some end
    → index + length bytes < end
unfolding scan
scan_beyond index line_ends [] more end c h g =
    ground (arith, scan_bounds index line_ends more end g)
scan_beyond index line_ends (b ∷ []) [] end c h g = ground arith
scan_beyond index line_ends (b ∷ []) (m ∷ more) end c h g = ground (
  arith,
  scan_bounds (index + 1) (line_ends + 1) (m ∷ more) end,
  scan_bounds (index + 1) 0 (m ∷ more) end,
)
scan_beyond index line_ends (b ∷ d ∷ []) more end c h g = ground (
  arith,
  scan_bounds (index + 2) (line_ends + 1) more end,
  scan_beyond (index + 1) (line_ends + 1) (d ∷ []) more end c,
  scan_beyond (index + 1) 0 (d ∷ []) more end c,
)
scan_beyond index line_ends (b ∷ d ∷ e ∷ rest) more end c h g = ground (
  arith,
  scan_beyond (index + 2) (line_ends + 1) (e ∷ rest) more end c,
  scan_beyond (index + 1) (line_ends + 1) (d ∷ e ∷ rest) more end c,
  scan_beyond (index + 1) 0 (d ∷ e ∷ rest) more end c,
)

pub find_event_end_beyond :
    (bytes more : List ℕ) (end : ℕ)
    → ends_in_cr bytes ≡ false
    → find_event_end bytes ≡ none
    → find_event_end (bytes ++ more) ≡ some end
    → length bytes < end
unfolding find_event_end
find_event_end_beyond bytes more end c h g = ground (arith, scan_beyond 0 0 bytes more end c h g)

-- The bytes up to the end are one event by themselves.
scan-take :
    (index line_ends : ℕ) (bytes : List ℕ) (n end : ℕ)
    → end ≡ index + n
    → scan index line_ends bytes ≡ some end
    → scan index line_ends (take n bytes) ≡ some end
unfolding scan
scan-take index line_ends [] n end e h = ground arith
scan-take index line_ends (b ∷ []) zero end e h = ground arith
scan-take index line_ends (b ∷ []) (suc zero) end e h = h
scan-take index line_ends (b ∷ []) (suc (suc n)) end e h = ground arith
scan-take index line_ends (b ∷ c ∷ rest) zero end e h =
    ground (arith, scan_bounds index line_ends (b ∷ c ∷ rest) end h)
scan-take index line_ends (b ∷ c ∷ rest) (suc zero) end e h = ground (
  arith,
  scan_bounds (index + 2) (line_ends + 1) rest end,
  scan_bounds (index + 1) (line_ends + 1) (c ∷ rest) end,
  scan_bounds (index + 1) 0 (c ∷ rest) end,
)
scan-take index line_ends (b ∷ c ∷ rest) (suc (suc n)) end e h = ground (
  arith,
  scan-take (index + 2) (line_ends + 1) rest n end,
  scan-take (index + 1) (line_ends + 1) (c ∷ rest) (suc n) end,
  scan-take (index + 1) 0 (c ∷ rest) (suc n) end,
)

pub find_event_end-take :
    (bytes : List ℕ) (end : ℕ)
    → find_event_end bytes ≡ some end
    → find_event_end (take end bytes) ≡ some end
unfolding find_event_end
find_event_end-take bytes end h = scan-take 0 0 bytes end end (omega arith) h
