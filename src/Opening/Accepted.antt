-- ===== src/Opening/Accepted.antt =====
-- The headers that `_open_file` of pager.py accepts, and what it makes of them.
use tinydb_cc_comet.Prelude.{
  ℕ, ◌≡◌, ◌∙◌, ap, subst, Option, Option-cases, Bool, true, false, some, [], ◌∷◌, arith, ◌==◌,
  get_elem?, take, Bool-cases, inl, inr,
}
use tinydb_cc_comet.Errors.{ok}
use tinydb_cc_comet.Bytes.{Bytes, bytes_eq}
use tinydb_cc_comet.Pager.{file_write}
use tinydb_cc_comet.Opening.{
  magic_prefix, schema_version, upgrade_v2, check_v3, upgrade_version, upgrade,
}

-- Files that begin with the magic number, a version of 2 or 3 and the schema 3
pub data IsCurrent (file : Bytes) : Type 0 where
  version_two :
      bytes_eq (take 7 (take 9 file)) magic_prefix ≡ true
      → get_elem? (take 9 file) 7 ≡ some 2
      → get_elem? (take 9 file) 8 ≡ some 3
      → IsCurrent file
  version_three :
      bytes_eq (take 7 (take 9 file)) magic_prefix ≡ true
      → get_elem? (take 9 file) 7 ≡ some 3
      → get_elem? (take 9 file) 8 ≡ some 3
      → IsCurrent file

pub upgrade-magic :
    (w : Bool) (file file' : Bytes)
    → upgrade w file ≡ ok file'
    → bytes_eq (take 7 (take 9 file)) magic_prefix ≡ true
unfolding upgrade
upgrade-magic w file file' h = elim (Bool-cases (bytes_eq (take 7 (take 9 file)) magic_prefix)) [
  | inl t ↦ t
  | inr f ↦ absurd (let e = rw f at h in ground arith)
]

-- What the header check accepts, with `w` for a log beside the file, and the file that it leaves
pub data Upgraded (w : Bool) (file : Bytes) : Bytes → Type 0 where
  from_one :
      bytes_eq (take 7 (take 9 file)) magic_prefix ≡ true
      → get_elem? (take 9 file) 7 ≡ some 1
      → Upgraded w file (file_write 7 (3 ∷ schema_version ∷ 0 ∷ 0 ∷ 0 ∷ 0 ∷ []) file)
  from_two :
      bytes_eq (take 7 (take 9 file)) magic_prefix ≡ true
      → get_elem? (take 9 file) 7 ≡ some 2
      → get_elem? (take 9 file) 8 ≡ some 2
      → w ≡ false
      → Upgraded w file (file_write 8 (schema_version ∷ []) file)
  already : IsCurrent file → Upgraded w file file

some-eq : (o : Option ℕ) (n m : ℕ) → o ≡ some n → (n == m) ≡ true → o ≡ some m
some-eq o n m e t = e ∙ ap (λ (k : ℕ). some k) (ground arith)

module _ (w : Bool) (file file' : Bytes)
    (m : bytes_eq (take 7 (take 9 file)) magic_prefix ≡ true) where
  two-Upgraded :
      (s : ℕ)
      → get_elem? (take 9 file) 7 ≡ some 2
      → get_elem? (take 9 file) 8 ≡ some s
      → upgrade_v2 w s file ≡ ok file'
      → Upgraded w file file'
  unfolding upgrade_v2
  two-Upgraded s v e h = elim (Bool-cases (s == schema_version)) [
    | inl t ↦
        let q : file ≡ file' = (let k = rw t at h in ground arith) in
        subst (Upgraded w file) q (already (version_two m v (some-eq _ s 3 e t)))
    | inr f ↦ elim (Bool-cases (s == 2)) [
      | inr f' ↦ absurd (let k = rw (f, f') at h in ground arith)
      | inl t ↦ elim (Bool-cases w) [
        | inl locked ↦ absurd (let k = rw (f, t, locked) at h in ground arith)
        | inr free ↦
            let q : file_write 8 (schema_version ∷ []) file ≡ file' =
              (let k = rw (f, t, free) at h in ground arith) in
            subst (Upgraded w file) q (from_two m v (some-eq _ s 2 e t) free)
      ]
    ]
  ]

  three-Upgraded :
      (s : ℕ)
      → get_elem? (take 9 file) 7 ≡ some 3
      → get_elem? (take 9 file) 8 ≡ some s
      → check_v3 s file ≡ ok file'
      → Upgraded w file file'
  unfolding check_v3
  three-Upgraded s v e h = elim (Bool-cases (s == schema_version)) [
    | inr f ↦ absurd (let k = rw f at h in ground arith)
    | inl t ↦
        let q : file ≡ file' = (let k = rw t at h in ground arith) in
        subst (Upgraded w file) q (already (version_three m v (some-eq _ s 3 e t)))
  ]

  version-Upgraded :
      (v : ℕ)
      → get_elem? (take 9 file) 7 ≡ some v
      → upgrade_version w v (take 9 file) file ≡ ok file'
      → Upgraded w file file'
  unfolding upgrade_version
  version-Upgraded v e h = elim (Bool-cases (v == 1)) [
    | inl t ↦
        let q : file_write 7 (3 ∷ schema_version ∷ 0 ∷ 0 ∷ 0 ∷ 0 ∷ []) file ≡ file' =
          (let k = rw t at h in ground arith) in
        subst (Upgraded w file) q (from_one m (some-eq _ v 1 e t))
    | inr n ↦ elim (Option-cases (get_elem? (take 9 file) 8)) [
      | inl missing ↦ absurd (ground arith)
      | inr (s, found) ↦ elim (Bool-cases (v == 2)) [
        | inl t ↦ two-Upgraded s (some-eq _ v 2 e t) found (rw (n, t, found) at h)
        | inr n' ↦ elim (Bool-cases (v == 3)) [
          | inl t ↦ three-Upgraded s (some-eq _ v 3 e t) found (rw (n, n', t, found) at h)
          | inr n'' ↦ absurd (let k = rw (n, n', n'') at h in ground arith)
        ]
      ]
    ]
  ]

pub upgrade-Upgraded :
    (w : Bool) (file file' : Bytes) → upgrade w file ≡ ok file' → Upgraded w file file'
unfolding upgrade
upgrade-Upgraded w file file' h =
    let m = upgrade-magic w file file' h in
    elim (Option-cases (get_elem? (take 9 file) 7)) [
      | inl missing ↦ absurd (let k = rw (m, missing) at h in ground arith)
      | inr (v, e) ↦ version-Upgraded w file file' m v e (rw (m, e) at h)
    ]
