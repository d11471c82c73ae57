-- ===== src/Monomorphize/Names.antt =====
-- The names of the instances.
use flow_arrow.Prelude.{◌≡◌, refl, List, [], ◌∷◌, ◌++◌, append_assoc, Text}
use flow_arrow.Monomorphize.{sanitize_name, instance_name}

sanitize_name-append : (s t : Text) → sanitize_name (s ++ t) ≡ sanitize_name s ++ sanitize_name t
unfolding sanitize_name
sanitize_name-append [] t = refl
sanitize_name-append (c ∷ s) t = rw (sanitize_name-append s t) refl

-- Two instances may have one name: a first argument and a template whose name ends in an underscore and
-- that argument are not told apart.
pub instance_name-collides :
    (template arg : Text) (args : List Text)
    → instance_name template (arg ∷ args) ≡ instance_name (template ++ b'_' ∷ arg) args
unfolding instance_name
instance_name-collides template arg args =
    rw (sanitize_name-append template (b'_' ∷ arg)) (unfold sanitize_name in simp append_assoc)
