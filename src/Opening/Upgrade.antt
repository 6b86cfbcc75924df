-- ===== src/Opening/Upgrade.antt =====
-- `_open_file` of pager.py on the header that an earlier opening wrote.
use tinydb_cc_comet.Prelude.{
  ℕ, suc, ◌≡◌, refl, ap, subst, Bool, true, false, some, [], ◌∷◌, arith, ◌==◌, length, get_elem?,
  take, Bool-cases, inl, inr, ◌<◌, length-take,
}
use tinydb_cc_comet.Errors.{ok}
use tinydb_cc_comet.Bytes.{Bytes, bytes_eq}
use tinydb_cc_comet.Pager.{file_write}
use tinydb_cc_comet.Opening.{
  magic_prefix, schema_version, upgrade_v2, check_v3, upgrade_version, upgrade,
}
use tinydb_cc_comet.Opening.Accepted.{
  IsCurrent, version_two, version_three, upgrade-magic, Upgraded, upgrade-Upgraded,
}

IsCurrent-upgrade : (w : Bool) (file : Bytes) → IsCurrent file → upgrade w file ≡ ok file
unfolding upgrade upgrade_version upgrade_v2 check_v3
IsCurrent-upgrade w file (version_two m v s) = rw (m, v, s)
IsCurrent-upgrade w file (version_three m v s) = rw (m, v, s)

-- Writes to the header of a file that has the seven bytes of the magic number
module _ (b₀ b₁ b₂ b₃ b₄ b₅ b₆ : ℕ) (rest : Bytes) where
  abbrev with_magic : Bytes → Bytes
  with_magic xs = b₀ ∷ b₁ ∷ b₂ ∷ b₃ ∷ b₄ ∷ b₅ ∷ b₆ ∷ xs

  upgraded-one :
      bytes_eq (with_magic []) magic_prefix ≡ true
      → IsCurrent (file_write 7 (3 ∷ schema_version ∷ 0 ∷ 0 ∷ 0 ∷ 0 ∷ []) (with_magic rest))
  unfolding file_write take get_elem?
  upgraded-one m = version_three m refl refl

  upgraded-two :
      (v s : ℕ)
      → v ≡ 2
      → bytes_eq (with_magic []) magic_prefix ≡ true
      → IsCurrent (file_write 8 (schema_version ∷ []) (with_magic (v ∷ s ∷ rest)))
  unfolding file_write take get_elem?
  upgraded-two v s e m = version_two m (ap (λ (n : ℕ). some n) e) refl

bytes_eq-length : (xs ys : Bytes) → bytes_eq xs ys ≡ true → length xs ≡ length ys
unfolding bytes_eq
bytes_eq-length [] [] h = refl
bytes_eq-length [] (y ∷ ys) h = absurd (ground arith)
bytes_eq-length (x ∷ xs) [] h = absurd (ground arith)
bytes_eq-length (x ∷ xs) (y ∷ ys) h = ap suc (bytes_eq-length xs ys (ground arith))

upgrade-short : (w : Bool) (file file' : Bytes) → length file < 7 → upgrade w file ≡ ok file' → ⊥
upgrade-short w file file' s h =
    let e = bytes_eq-length (take 7 (take 9 file)) magic_prefix (upgrade-magic w file file' h) in
    omega (arith, length-take 7 (take 9 file), length-take 9 file)

module _ (w : Bool) (b₀ b₁ b₂ b₃ b₄ b₅ b₆ v : ℕ) (rest file' : Bytes)
    (h : upgrade w (with_magic b₀ b₁ b₂ b₃ b₄ b₅ b₆ rest (v ∷ rest)) ≡ ok file') where
  abbrev file : Bytes
  file = with_magic b₀ b₁ b₂ b₃ b₄ b₅ b₆ rest (v ∷ rest)

  magic : bytes_eq (with_magic b₀ b₁ b₂ b₃ b₄ b₅ b₆ rest []) magic_prefix ≡ true
  unfolding take
  magic = upgrade-magic w file file' h

  by_version : upgrade_version w v (take 9 file) file ≡ ok file'
  unfolding upgrade take get_elem?
  by_version = rw magic at h

  after-one : v ≡ 1 → IsCurrent file'
  unfolding upgrade_version
  after-one e =
      let t : (v == 1) ≡ true = ground arith in
      let k = rw t at by_version in
      let q : file_write 7 (3 ∷ schema_version ∷ 0 ∷ 0 ∷ 0 ∷ 0 ∷ []) file ≡ file' = ground arith in
      subst IsCurrent q (upgraded-one b₀ b₁ b₂ b₃ b₄ b₅ b₆ (v ∷ rest) magic)

-- The header of a version that is not the first
module _ (w : Bool) (b₀ b₁ b₂ b₃ b₄ b₅ b₆ v : ℕ) (file' : Bytes) (not_one : (v == 1) ≡ false) where
  abbrev headed : Bytes → Bytes
  headed rest = with_magic b₀ b₁ b₂ b₃ b₄ b₅ b₆ rest (v ∷ rest)

  after-none : upgrade_version w v (take 9 (headed [])) (headed []) ≡ ok file' → ⊥
  unfolding upgrade_version take get_elem?
  after-none h = elim (Bool-cases (v == 2)) [
    | inl t ↦ absurd (let e = rw (not_one, t) at h in ground arith)
    | inr f ↦ elim (Bool-cases (v == 3)) [
      | inl t ↦ absurd (let e = rw (not_one, f, t) at h in ground arith)
      | inr f' ↦ absurd (let e = rw (not_one, f, f') at h in ground arith)
    ]
  ]

  module _ (s : ℕ) (rest : Bytes)
      (m : bytes_eq (with_magic b₀ b₁ b₂ b₃ b₄ b₅ b₆ rest []) magic_prefix ≡ true) where
    after-two : v ≡ 2 → upgrade_v2 w s (headed (s ∷ rest)) ≡ ok file' → IsCurrent file'
    unfolding upgrade_v2 take get_elem?
    after-two e h = elim (Bool-cases (s == schema_version)) [
      | inl t ↦
          let q : headed (s ∷ rest) ≡ file' = (let k = rw t at h in ground arith) in
          let three : s ≡ 3 = ground arith in
          subst IsCurrent q
            (version_two m (ap (λ (n : ℕ). some n) e) (ap (λ (n : ℕ). some n) three))
      | inr f ↦ elim (Bool-cases (s == 2)) [
        | inr f' ↦ absurd (let k = rw (f, f') at h in ground arith)
        | inl t ↦ elim (Bool-cases w) [
          | inl locked ↦ absurd (let k = rw (f, t, locked) at h in ground arith)
          | inr free ↦
              let q : file_write 8 (schema_version ∷ []) (headed (s ∷ rest)) ≡ file' =
                (let k = rw (f, t, free) at h in ground arith) in
              subst IsCurrent q (upgraded-two b₀ b₁ b₂ b₃ b₄ b₅ b₆ rest v s e m)
        ]
      ]
    ]

    after-three : v ≡ 3 → check_v3 s (headed (s ∷ rest)) ≡ ok file' → IsCurrent file'
    unfolding check_v3 take get_elem?
    after-three e h = elim (Bool-cases (s == schema_version)) [
      | inr f ↦ absurd (let k = rw f at h in ground arith)
      | inl t ↦
          let q : headed (s ∷ rest) ≡ file' = (let k = rw t at h in ground arith) in
          let three : s ≡ 3 = ground arith in
          subst IsCurrent q
            (version_three m (ap (λ (n : ℕ). some n) e) (ap (λ (n : ℕ). some n) three))
    ]

    after-some :
        upgrade_version w v (take 9 (headed (s ∷ rest))) (headed (s ∷ rest)) ≡ ok file'
        → IsCurrent file'
    unfolding upgrade_version take get_elem?
    after-some h = elim (Bool-cases (v == 2)) [
      | inl t ↦ after-two (ground arith) (rw (not_one, t) at h)
      | inr f ↦ elim (Bool-cases (v == 3)) [
        | inl t ↦ after-three (ground arith) (rw (not_one, f, t) at h)
        | inr f' ↦ absurd (let e = rw (not_one, f, f') at h in ground arith)
      ]
    ]

by_rest :
    (w : Bool) (a b c d e f g v : ℕ) (rest file' : Bytes)
    → (v == 1) ≡ false
    → bytes_eq (with_magic a b c d e f g rest []) magic_prefix ≡ true
    → upgrade_version w v
        (take 9 (with_magic a b c d e f g rest (v ∷ rest)))
        (with_magic a b c d e f g rest (v ∷ rest))
      ≡ ok file'
    → IsCurrent file'
by_rest w a b c d e f g v [] file' n m h = absurd (after-none w a b c d e f g v file' n h)
by_rest w a b c d e f g v (s ∷ rest) file' n m h = after-some w a b c d e f g v file' n s rest m h

upgrade-IsCurrent : (w : Bool) (file file' : Bytes) → upgrade w file ≡ ok file' → IsCurrent file'
upgrade-IsCurrent w [] file' h = absurd (upgrade-short w [] file' (omega arith) h)
upgrade-IsCurrent w (a ∷ []) file' h = absurd (upgrade-short w (a ∷ []) file' (omega arith) h)
upgrade-IsCurrent w (a ∷ b ∷ []) file' h =
    absurd (upgrade-short w (a ∷ b ∷ []) file' (omega arith) h)
upgrade-IsCurrent w (a ∷ b ∷ c ∷ []) file' h =
    absurd (upgrade-short w (a ∷ b ∷ c ∷ []) file' (omega arith) h)
upgrade-IsCurrent w (a ∷ b ∷ c ∷ d ∷ []) file' h =
    absurd (upgrade-short w (a ∷ b ∷ c ∷ d ∷ []) file' (omega arith) h)
upgrade-IsCurrent w (a ∷ b ∷ c ∷ d ∷ e ∷ []) file' h =
    absurd (upgrade-short w (a ∷ b ∷ c ∷ d ∷ e ∷ []) file' (omega arith) h)
upgrade-IsCurrent w (a ∷ b ∷ c ∷ d ∷ e ∷ f ∷ []) file' h =
    absurd (upgrade-short w (a ∷ b ∷ c ∷ d ∷ e ∷ f ∷ []) file' (omega arith) h)
upgrade-IsCurrent w (a ∷ b ∷ c ∷ d ∷ e ∷ f ∷ g ∷ []) file' h =
    let m = upgrade-magic w (a ∷ b ∷ c ∷ d ∷ e ∷ f ∷ g ∷ []) file' h in
    absurd (unfold upgrade take get_elem? in (let k = rw m at h in ground arith))
upgrade-IsCurrent w (a ∷ b ∷ c ∷ d ∷ e ∷ f ∷ g ∷ v ∷ rest) file' h = elim (Bool-cases (v == 1)) [
  | inl t ↦ after-one w a b c d e f g v rest file' h (ground arith)
  | inr n ↦
      by_rest w a b c d e f g v rest file' n (magic w a b c d e f g v rest file' h)
        (by_version w a b c d e f g v rest file' h)
]

-- The header check of `_open_file` accepts no other files than these: with the magic number and version
-- 1, which get version and schema 3 and an empty free list; with version 2 and schema 2, when there is no
-- log, which get schema 3; and with version 2 or 3 and schema 3, which stay. The file that it leaves is of
-- the last kind, and the header check of that file, with or without a log, accepts it without a change.
-- Replay of the log is not part of it.
pub upgrade-upgrade :
    (w w' : Bool) (file file' : Bytes)
    → upgrade w file ≡ ok file'
    → Upgraded w file file' × IsCurrent file' × (upgrade w' file' ≡ ok file')
upgrade-upgrade w w' file file' h =
    let c = upgrade-IsCurrent w file file' h in
    (upgrade-Upgraded w file file' h, c, IsCurrent-upgrade w' file' c)
