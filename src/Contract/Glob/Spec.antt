-- ===== src/Contract/Glob/Spec.antt =====
-- What a topic pattern means, as a relation between the pattern and a topic.
use egop.Prelude.{Text, ℕ, [], ◌∷◌, ◌≡◌, ◌≢◌}

pub data Glob : Text → Text → Type 0 where
  done : Glob [] []
  literal : {c : ℕ} {p s : Text} → c ≢ b'*' → Glob p s → Glob (c ∷ p) (c ∷ s)
  star_end : {c : ℕ} {p s : Text} → c ≡ b'*' → Glob p s → Glob (c ∷ p) s
  star_more : {c d : ℕ} {p s : Text} → c ≡ b'*' → Glob (c ∷ p) s → Glob (c ∷ p) (d ∷ s)
