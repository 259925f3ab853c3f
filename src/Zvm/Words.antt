-- ===== src/Zvm/Words.antt =====
-- _split_chars (hypervisors/zvm/zvm.py): a text in words of a fixed size.
use tessia_baselib.Prelude.{
  ℕ, zero, suc, ◌≤◌, ◌<◌, ◌≡◌, refl, ap, ◌∙◌, List, [], ◌∷◌, ◌++◌, Text, lit, length, take, drop,
  join, arith, append-take-drop, length-drop,
}

-- the pieces, at most `fuel` of them
unfoldable pub pieces : ℕ → ℕ → Text → List Text
pieces zero size t = []
pieces (suc fuel) size [] = []
pieces (suc fuel) size (c ∷ cs) = take size (c ∷ cs) ∷ pieces fuel size (drop size (c ∷ cs))

unfoldable pub split_chars : Text → ℕ → Text
unfolding pieces
split_chars t size = join (lit " ") (pieces (length t) size t)

abbrev pub concat : List Text → Text
concat [] = []
concat (t ∷ ts) = t ++ concat ts

concat-pieces :
    (fuel size : ℕ) (t : Text) → 0 < size → length t ≤ fuel → concat (pieces fuel size t) ≡ t
unfolding pieces
concat-pieces zero size [] p l = refl
concat-pieces zero size (c ∷ cs) p l = absurd (omega arith)
concat-pieces (suc fuel) size [] p l = refl
concat-pieces (suc fuel) size (c ∷ cs) p l =
    ap (λ t. take size (c ∷ cs) ++ t)
      (concat-pieces fuel size (drop size (c ∷ cs)) p (omega (arith, length-drop size (c ∷ cs))))
    ∙ append-take-drop size (c ∷ cs)
