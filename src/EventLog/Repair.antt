-- ===== src/EventLog/Repair.antt =====
-- Repairing any log of src/storage.rs that can be recovered: the whole records stay, the rest is put
-- aside, and a second recovery finds the same records and nothing to repair.
use mathlib.Core.List.{append_assoc, append-nil}
use inference_io.Prelude.{
  ℕ, zero, suc, ◌+◌, ◌≤◌, ◌≡◌, refl, sym, ap, ◌∙◌, subst, true, false, [], ◌∷◌, ◌++◌, Option, none,
  some, arith, ltb, if◌then◌else◌, length, take, drop, length-append, take-length_append,
  drop-length_append, saturating_add_exact, u64_max, Result, ok, ◌>>=◌, >>=-eq-ok, Bool-cases, inl,
  inr, Result-cases,
}
use inference_io.Bytes.{Bytes, contains}
use inference_io.Bytes.Lines.{
  newline, Line, read_until, read_until-line, at_end, IsFirstLine, read_until-IsFirstLine,
}
use inference_io.EventLog.Record.{StorageError, max_event_record_bytes, decode_event}
use inference_io.EventLog.Cipher.{EncryptionKey, Codec}
use inference_io.EventLog.Recover.{
  Recovered, nothing_recovered, bytes_read, buffer_of, recover_line, recover_from,
  recover_jsonl_records, report_of, settle,
}

module _ (c : Codec) (encryption : Option EncryptionKey) where
  -- What recovery keeps of a file, and finds in it again.
  abbrev IsKept : Recovered → Recovered → Bytes → Type 0
  IsKept s t file =
      (kept : Bytes) × (tail : Bytes) × (file ≡ kept ++ tail)
      × (t.valid_bytes ≡ s.valid_bytes + length kept)
      × ((fuel : ℕ) → length kept ≤ fuel → recover_from fuel c encryption s kept ≡ ok t)

  recover_from-nil : (fuel : ℕ) (s : Recovered) → recover_from fuel c encryption s [] ≡ ok s
  unfolding recover_from read_until
  recover_from-nil zero s = refl
  recover_from-nil (suc fuel) s = refl

  nothing-IsKept :
      (s t : Recovered) (file : Bytes)
      → ◌≡◌ {A = Result StorageError Recovered} (ok s) (ok t)
      → IsKept s t file
  nothing-IsKept s t file h =
      let same : s ≡ t = cc h in
      subst (λ u. IsKept s u file) same
        ([], file, refl, omega arith, (λ fuel enough. recover_from-nil fuel s))

  recover_line-bytes :
      (line : Line) (s t : Recovered)
      → recover_line c encryption line s ≡ ok t
      → s.valid_bytes + bytes_read line ≤ u64_max
      → t.valid_bytes ≡ s.valid_bytes + bytes_read line
  unfolding recover_line
  recover_line-bytes line s t h room = ground (
    arith,
    h,
    Result-cases (decode_event c encryption (buffer_of line)),
    saturating_add_exact s.valid_bytes (bytes_read line) room,
  )

  recover_line-rest :
      (line : Line) (rest : Bytes) (s : Recovered)
      → line.terminated ≡ true
      → recover_line c encryption (record { text = line.text; terminated = true; rest = rest }) s
        ≡ recover_line c encryption line s
  unfolding recover_line
  recover_line-rest line rest s e = rw e refl

  recover_from_step :
      (fuel : ℕ) (s m : Recovered) (line : Line) (rest : Bytes)
      → contains newline line.text ≡ false
      → length line.text + 1 ≤ max_event_record_bytes
      → line.terminated ≡ true
      → recover_line c encryption line s ≡ ok m
      → recover_from (suc fuel) c encryption s (line.text ++ newline ∷ rest)
        ≡ recover_from fuel c encryption m rest
  unfolding recover_from
  recover_from_step fuel s m line rest one_line fits terminated h =
      rw
        (
          read_until-line (max_event_record_bytes + 1) line.text rest one_line
              (omega (arith, fits)),
          recover_line-rest line rest s terminated,
          h,
        )
        (ground (arith, fits))

  kept_again :
      (s m t : Recovered) (line : Line) (kept : Bytes)
      → contains newline line.text ≡ false
      → length line.text + 1 ≤ max_event_record_bytes
      → line.terminated ≡ true
      → recover_line c encryption line s ≡ ok m
      → ((fuel : ℕ) → length kept ≤ fuel → recover_from fuel c encryption m kept ≡ ok t)
      → (fuel : ℕ) → length (line.text ++ newline ∷ kept) ≤ fuel
      → recover_from fuel c encryption s (line.text ++ newline ∷ kept) ≡ ok t
  kept_again s m t line kept one_line fits terminated h again zero enough =
      absurd (omega (arith, enough, length-append line.text (newline ∷ kept)))
  kept_again s m t line kept one_line fits terminated h again (suc fuel) enough =
      recover_from_step fuel s m line kept one_line fits terminated h
      ∙ again fuel (omega (arith, enough, length-append line.text (newline ∷ kept)))

  IsKept-line :
      (s m t : Recovered) (line : Line) (file : Bytes)
      → IsFirstLine file line
      → length line.text + 1 ≤ max_event_record_bytes
      → line.terminated ≡ true
      → recover_line c encryption line s ≡ ok m
      → m.valid_bytes ≡ s.valid_bytes + (length line.text + 1)
      → IsKept m t line.rest
      → IsKept s t file
  IsKept-line s m t line file first fits terminated h advance (kept, tail, split, valid, again) =
      let size = length-append line.text (newline ∷ kept) in
      (
        line.text ++ newline ∷ kept,
        tail,
        first.split
            ∙ ap (λ rest. line.text ++ newline ∷ rest) split
            ∙ sym (append_assoc line.text (newline ∷ kept) tail),
        omega (arith, valid, advance, size),
        kept_again s m t line kept first.one_line fits terminated h again,
      )

  recover_from-IsKept :
      (fuel : ℕ) (s t : Recovered) (file : Bytes)
      → s.valid_bytes + length file ≤ u64_max
      → recover_from fuel c encryption s file ≡ ok t
      → length file ≤ fuel
      → IsKept s t file
  unfolding recover_from
  recover_from-IsKept zero s t file room h enough = nothing-IsKept s t file h
  recover_from-IsKept (suc fuel) s t file room h enough =
      let line : Line = read_until (max_event_record_bytes + 1) file in
      elim (Bool-cases (at_end line)) [
        | inl e ↦ nothing-IsKept s t file (ground (arith, e, h))
        | inr e ↦ elim (Bool-cases (ltb max_event_record_bytes (bytes_read line))) [
          | inl f ↦ absurd (ground (arith, e, f, h))
          | inr f ↦ elim (Bool-cases line.terminated) [
            | inr g ↦ nothing-IsKept s t file (ground (arith, e, f, g, h))
            | inl g ↦
                let taken : (recover_line c encryption line s
                      >>= (λ m. recover_from fuel c encryption m line.rest))
                    ≡ ok t =
                  ground (arith, e, f, g, h) in
                let (m, one, rest) = >>=-eq-ok (recover_line c encryption line s) _ taken in
                let first = read_until-IsFirstLine (max_event_record_bytes + 1) file g in
                let size : length file ≡ length line.text + suc (length line.rest) =
                  ap length first.split ∙ length-append line.text (newline ∷ line.rest) in
                let read : bytes_read line ≡ length line.text + 1 = ground (arith, g) in
                let advance : m.valid_bytes ≡ s.valid_bytes + (length line.text + 1) =
                  recover_line-bytes line s m one (omega (arith, room, size, read))
                  ∙ ap (λ n. s.valid_bytes + n) read in
                IsKept-line s m t line file first (ground (arith, f, read)) g one advance (
                  recover_from-IsKept fuel m t line.rest (omega (arith, room, size, advance)) rest
                    (omega (arith, enough, size)))
          ]
        ]
      ]

-- The repaired file is what recovery keeps.
settle-kept :
    (kept tail file : Bytes) (s : Recovered)
    → file ≡ kept ++ tail
    → s.valid_bytes ≡ length kept
    → ((settle true file s).1 ≡ kept)
      × (drop s.valid_bytes file ≡ tail)
      × ((settle true file s).0
          ≡ report_of s (length tail) (if ltb 0 (length tail) then some tail else none))
unfolding settle
settle-kept kept [] file s split valid =
    let whole : file ≡ kept = split ∙ append-nil kept in
    let none_left : drop s.valid_bytes file ≡ [] =
      rw (whole, valid)
        (ap (drop (length kept)) (sym (append-nil kept)) ∙ drop-length_append kept []) in
    let size : length file ≡ s.valid_bytes = ap length whole ∙ sym valid in
    (ground (arith, size, whole), none_left, ground (arith, size))
settle-kept kept (b ∷ tail) file s split valid =
    let size : length file ≡ s.valid_bytes + suc (length tail) =
      ap length split
      ∙ length-append kept (b ∷ tail)
      ∙ ap (λ n. n + suc (length tail)) (sym valid) in
    let left : take s.valid_bytes file ≡ kept =
      rw (split, valid) (take-length_append kept (b ∷ tail)) in
    let rest : drop s.valid_bytes file ≡ b ∷ tail =
      rw (split, valid) (drop-length_append kept (b ∷ tail)) in
    (ground (arith, size, left), rest, ground (arith, size, rest))

module _ (c : Codec) (encryption : Option EncryptionKey) where
  -- What the repair of a file gives, for the records that recovery found.
  abbrev pub IsRepaired : Bytes → Recovered → Type 0
  IsRepaired file s =
      (discarded : Bytes) × (file ≡ (settle true file s).1 ++ discarded)
      × ((settle true file s).0
          ≡ report_of s (length discarded)
              (if ltb 0 (length discarded) then some discarded else none))
      × (recover_jsonl_records c encryption (settle true file s).1 ≡ ok s)
      × (settle true (settle true file s).1 s ≡ (report_of s 0 none, (settle true file s).1))

  -- Let recovery find records in a file of fewer than 2 ^ 64 bytes that is a log of lines. Then the
  -- file is what the repair leaves followed by the bytes that the report counts as discarded, which are
  -- the quarantine when there are any; and recovery of what the repair leaves finds the same records
  -- again, with nothing to discard.
  pub repair_settles :
      (file : Bytes) (s : Recovered)
      → length file ≤ u64_max
      → recover_jsonl_records c encryption file ≡ ok s
      → IsRepaired file s
  unfolding recover_jsonl_records
  repair_settles file s room h =
      let (kept, tail, split, valid, again) =
        recover_from-IsKept c encryption (length file) nothing_recovered s file
          (omega (arith, room)) h (omega arith) in
      let (left, rest, report) = settle-kept kept tail file s split (omega (arith, valid)) in
      let (left', rest', report') =
        settle-kept kept [] kept s (sym (append-nil kept)) (omega (arith, valid)) in
      (
        tail,
        rw left split,
        report,
        rw left (again (length kept) (omega arith)),
        rw left (
            ap (λ r. (r, (settle true kept s).1)) report'
            ∙ ap (λ f. (report_of s 0 none, f)) left'),
      )
