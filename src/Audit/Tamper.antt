-- ===== src/Audit/Tamper.antt =====
-- What the chain of src/audit.rs detects: the properties of `verify` and of the two searches.
use mathlib.Core.Path.{ap₂}
use inference_io.Prelude.{
  ℕ, ◌+◌, ◌≡◌, refl, sym, ap, ◌∙◌, ◌⊎◌, subst, List, [], ◌∷◌, Option, none, some, Result, ok, arith,
  length, inl, inr, >>=-eq-ok,
}
use inference_io.Bytes.{Bytes}
use inference_io.Audit.Record.{AuditRecord, AuditRecord-discrete, AuditError, Codec}
use inference_io.Audit.Log.{
  Scan, verify_locked_file_matching, verify_locked_file, AuditVerification, verify, hash_of, report,
}
use inference_io.Audit.Chain.{IsLink, Chain, last, cleared, Collision}
use inference_io.Audit.Verify.{Holds, verify_locked_file_matching-IsVerified}

-- What a successful `verify` says.
pub record IsSound (c : Codec) (file : Bytes) (v : AuditVerification) (rs : List AuditRecord)
    : Type 0 where
  pub holds : Holds c file rs
  pub chain : Chain c none 0 rs
  pub counted : v.records ≡ length rs
  pub numbered : v.last_sequence ≡ length rs
  pub head : v.last_sha256 ≡ hash_of (last rs)

same_report :
    (t : Scan) (v : AuditVerification)
    → ◌≡◌ {A = Result AuditError AuditVerification} (ok (report t)) (ok v)
    → v ≡ report t
same_report t v h = cc

-- A log that `verify` accepts is the lines of records which form one chain from the first on: each
-- is valid, numbered by its place, holds the hash of the one before it, and has its own hash right;
-- the reported counts and last hash are those of these records.
pub verify-IsSound :
    (c : Codec) (file : Bytes) (v : AuditVerification)
    → verify c file ≡ ok v
    → (rs : List AuditRecord) × IsSound c file v rs
unfolding verify verify_locked_file
verify-IsSound c file v h =
    let (t, scanned, made) =
      >>=-eq-ok (verify_locked_file_matching c none file) (λ scan. ok (report scan)) h in
    let (rs, log) = verify_locked_file_matching-IsVerified c none file t scanned in
    let same : v ≡ report t = same_report t v made in
    (
      rs,
      record {
        holds = log.holds;
        chain = log.chain;
        counted = ap (λ (w : AuditVerification). w.records) same ∙ log.counted;
        numbered = ap (λ (w : AuditVerification). w.last_sequence) same ∙ log.counted;
        head = ap (λ (w : AuditVerification). w.last_sha256) same ∙ ap hash_of log.last_is;
      },
    )

-- A chain that is not empty has a last record, in place behind all the others.
pub record IsLast (c : Codec) (rs : List AuditRecord) (total : ℕ) (r : AuditRecord) : Type 0 where
  pub is : last rs ≡ some r
  pub before : Option Bytes
  pub place : ℕ
  pub link : IsLink c before place r
  pub counted : place + 1 ≡ total

pub Chain-IsLast :
    (c : Codec) (previous : Option Bytes) (count : ℕ) (r : AuditRecord) (rs : List AuditRecord)
    → Chain c previous count (r ∷ rs)
    → (a : AuditRecord) × IsLast c (r ∷ rs) (count + length (r ∷ rs)) a
Chain-IsLast c previous count r [] (link, h) =
    (r, record { is = refl; before = previous; place = count; link = link; counted = omega arith })
Chain-IsLast c previous count r (s ∷ rs) (link, h) =
    let (a, l) = Chain-IsLast c (some r.record_sha256) (count + 1) s rs h in
    (
      a,
      record {
        is = l.is;
        before = l.before;
        place = l.place;
        link = l.link;
        counted = omega (arith, l.counted);
      },
    )

same_fields :
    (a b : AuditRecord) → cleared a ≡ cleared b → a.record_sha256 ≡ b.record_sha256 → a ≡ b
same_fields a b e h =
    ap (λ (r : AuditRecord). record r { record_sha256 = a.record_sha256 }) e
    ∙ ap (λ (h' : Bytes). record b { record_sha256 = h' }) h

linked_alike :
    {c : Codec} (x y w z : AuditRecord) (m n : ℕ) (xs ys : List AuditRecord)
    → IsLink c (some x.record_sha256) m w
    → IsLink c (some y.record_sha256) n z
    → w ∷ xs ≡ z ∷ ys
    → x.record_sha256 ≡ y.record_sha256
linked_alike x y w z m n xs ys lw lz e = cc (lw.linked, lz.linked)

module _ (c : Codec) where
  -- Two records in place with one hash are one record, or a collision.
  IsLink-unique :
      (p q : Option Bytes) (m n : ℕ) (a b : AuditRecord)
      → IsLink c p m a
      → IsLink c q n b
      → a.record_sha256 ≡ b.record_sha256
      → (a ≡ b) ⊎ Collision c
  IsLink-unique p q m n a b la lb e = elim (AuditRecord-discrete (cleared a) (cleared b)) [
    | yes same ↦ inl (same_fields a b same e)
    | no differ ↦ inr (a, b, sym la.hashed ∙ e ∙ lb.hashed, differ)
  ]

  Chain-unique :
      (p q : Option Bytes) (m n : ℕ) (xs ys : List AuditRecord)
      → Chain c p m xs
      → Chain c q n ys
      → length xs ≡ length ys
      → hash_of (last xs) ≡ hash_of (last ys)
      → (xs ≡ ys) ⊎ Collision c
  Chain-unique p q m n [] [] hx hy le e = inl refl
  Chain-unique p q m n [] (y ∷ ys) hx hy le e = absurd (omega arith)
  Chain-unique p q m n (x ∷ xs) [] hx hy le e = absurd (omega arith)
  Chain-unique p q m n (x ∷ []) (y ∷ []) (lx, hx) (ly, hy) le e =
      elim (IsLink-unique p q m n x y lx ly (cc)) [
        | inl same ↦ inl (ap (λ r. r ∷ []) same)
        | inr hit ↦ inr hit
      ]
  Chain-unique p q m n (x ∷ []) (y ∷ z ∷ ys) hx hy le e = absurd (omega arith)
  Chain-unique p q m n (x ∷ w ∷ xs) (y ∷ []) hx hy le e = absurd (omega arith)
  Chain-unique p q m n (x ∷ w ∷ xs) (y ∷ z ∷ ys) (lx, hx) (ly, hy) le e =
      elim (Chain-unique (some x.record_sha256) (some y.record_sha256) (m + 1) (n + 1) (w ∷ xs)
        (z ∷ ys) hx hy (omega arith) e) [
          | inl rest ↦
              let heads : x.record_sha256 ≡ y.record_sha256 =
                linked_alike x y w z (m + 1) (n + 1) xs ys hx.0 hy.0 rest in
              elim (IsLink-unique p q m n x y lx ly heads) [
                | inl same ↦ inl (ap₂ (λ r rs. r ∷ rs) same rest)
                | inr hit ↦ inr hit
              ]
          | inr hit ↦ inr hit
        ]

  Chain-same_length :
      (xs ys : List AuditRecord)
      → Chain c none 0 xs
      → Chain c none 0 ys
      → hash_of (last xs) ≡ hash_of (last ys)
      → (length xs ≡ length ys) ⊎ Collision c
  Chain-same_length [] [] hx hy e = inl refl
  Chain-same_length [] (y ∷ ys) hx hy e = let (b, lb) = Chain-IsLast c none 0 y ys hy in cc (lb.is)
  Chain-same_length (x ∷ xs) [] hx hy e = let (a, la) = Chain-IsLast c none 0 x xs hx in cc (la.is)
  Chain-same_length (x ∷ xs) (y ∷ ys) hx hy e =
      let (a, la) = Chain-IsLast c none 0 x xs hx in
      let (b, lb) = Chain-IsLast c none 0 y ys hy in
      elim (IsLink-unique la.before lb.before la.place lb.place a b la.link lb.link
        (cc (ap hash_of la.is, ap hash_of lb.is))) [
          | inl same ↦ inl (
              omega (
                arith,
                la.counted,
                lb.counted,
                la.link.sequence,
                lb.link.sequence,
                ap (λ (r : AuditRecord). r.sequence) same,
              ))
          | inr hit ↦ inr hit
        ]

-- The last hash that `verify` reports fixes the whole log: two accepted logs with the same last hash
-- hold the same records, or else they exhibit two different records with the same hash. So no record
-- can be altered, added, removed or moved without the last hash changing.
pub head_fixes_log :
    (c : Codec) (file file' : Bytes) (v v' : AuditVerification)
    → verify c file ≡ ok v
    → verify c file' ≡ ok v'
    → v.last_sha256 ≡ v'.last_sha256
    → ((rs : List AuditRecord) × Holds c file rs × Holds c file' rs) ⊎ Collision c
head_fixes_log c file file' v v' h h' e =
    let (rs, log) = verify-IsSound c file v h in
    let (rs', log') = verify-IsSound c file' v' h' in
    let heads : hash_of (last rs) ≡ hash_of (last rs') = sym log.head ∙ e ∙ log'.head in
    elim (Chain-same_length c rs rs' log.chain log'.chain heads) [
      | inl same ↦ elim (Chain-unique c none none 0 0 rs rs' log.chain log'.chain same heads) [
        | inl equal ↦ inl (rs, log.holds, subst (λ xs. Holds c file' xs) (sym equal) log'.holds)
        | inr hit ↦ inr hit
      ]
      | inr hit ↦ inr hit
    ]
