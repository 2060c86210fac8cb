-- ===== src/NodeVnids/Sets.antt =====
-- `sets.String` of the Kubernetes utilities: its operations, and what they document.
use mathlib.Core.List.{Mem}
use k8s_ovs.Base.{ℕ, ◌≡◌, ◌↔◌, Bool, true, false, List, Text, text_dec, ite}

pub record StringSets : Type 1 where
  pub Set : Type 0
  pub new : Set
  pub insert : Text → Set → Set
  pub delete : Text → Set → Set
  pub has : Text → Set → Bool
  pub len : Set → ℕ
  pub list : Set → List Text

pub record SetLaws (z : StringSets) : Type 0 where
  pub has-new : (n : Text) → z.has n z.new ≡ false
  pub has-insert :
      (m n : Text) (s : z.Set) → z.has n (z.insert m s) ≡ ite (text_dec m n) true (z.has n s)
  pub has-delete :
      (m n : Text) (s : z.Set) → z.has n (z.delete m s) ≡ ite (text_dec m n) false (z.has n s)
  pub len_zero : (s : z.Set) (n : Text) → z.len s ≡ 0 → z.has n s ≡ false
  pub len_pos : (s : z.Set) (n : Text) → z.has n s ≡ true → ¬ (z.len s ≡ 0)
  pub mem-list : (n : Text) (s : z.Set) → (z.has n s ≡ true) ↔ Mem n (z.list s)
