-- ===== src/Prelude/Region.antt =====
-- Buffers that differ within one region only, as a write through a slice leaves them.
use tinydb_cc_comet.Prelude.Lists.{
  length, get_or, slice, set_slice, length-set_slice, slice-set_slice_before, slice-set_slice_after,
  get_or-set_slice_before,
}
use Prim.Native.Nat.{ℕ, ◌+◌, ◌≤◌, ◌<◌}
use mathlib.Core.Path.{◌≡◌, refl, ◌∙◌}
use mathlib.Core.List.{List}
use native.Mathlib.Omega.{arith}

pub record SameOutside {ℓ} {A : Type ℓ} (lo hi : ℕ) (xs ys : List A) : Type ℓ where
  pub same_length : length ys ≡ length xs
  pub before : (a b : ℕ) → a ≤ b → b ≤ lo → slice a b ys ≡ slice a b xs
  pub after : (a b : ℕ) → hi ≤ a → slice a b ys ≡ slice a b xs
  pub at : (k : ℕ) (d : A) → k < lo → get_or ys k d ≡ get_or xs k d

module _ {ℓ} {A : Type ℓ} where
  pub SameOutside-refl : (lo hi : ℕ) (xs : List A) → SameOutside lo hi xs xs
  SameOutside-refl lo hi xs = record {
    same_length = refl;
    before = λ a b h k. refl;
    after = λ a b h. refl;
    at = λ k d h. refl;
  }

  -- Two writes in turn: both regions lie in the joint one.
  pub SameOutside-trans :
      {lo lo' lo₂ hi hi' hi₂ : ℕ} {xs ys zs : List A}
      → SameOutside lo' hi' xs ys
      → SameOutside lo₂ hi₂ ys zs
      → lo ≤ lo'
      → lo ≤ lo₂
      → hi' ≤ hi
      → hi₂ ≤ hi
      → SameOutside lo hi xs zs
  SameOutside-trans s t p q u v = record {
    same_length = t.same_length ∙ s.same_length;
    before = λ a b h k. t.before a b h (omega arith) ∙ s.before a b h (omega arith);
    after = λ a b h. t.after a b (omega arith) ∙ s.after a b (omega arith);
    at = λ k d h. t.at k d (omega arith) ∙ s.at k d (omega arith);
  }

  pub SameOutside-set_slice :
      (i j : ℕ) (v xs : List A)
      → i + length v ≡ j
      → j ≤ length xs
      → SameOutside i j xs (set_slice i j v xs)
  SameOutside-set_slice i j v xs size fits = record {
    same_length = length-set_slice i j v xs size fits;
    before = slice-set_slice_before i j v xs size fits;
    after = slice-set_slice_after i j v xs size fits;
    at = λ k d. get_or-set_slice_before i j v xs size fits d k;
  }
