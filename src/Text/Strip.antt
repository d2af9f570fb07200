-- ===== src/Text/Strip.antt =====
-- What `save_write_stripped` keeps of coloured output.
use bye_bye_vpn.Common.{
  ℕ, true, false, List, [], ◌∷◌, ◌++◌, ◌≡◌, refl, ap, ◌∙◌, arith, ◌==◌, within, All, Bytes,
}
use bye_bye_vpn.Text.{outside, inside, strip, save_write_stripped}

-- Terminal output: text with no escape byte, and control sequences `ESC [ params final`.
pub data Piece : Type 0 where
  plain : Bytes → Piece
  control : Bytes → ℕ → Piece

abbrev pub render : List Piece → Bytes
render [] = []
render (plain t ∷ ps) = t ++ render ps
render (control params last ∷ ps) = 0x1b ∷ b'[' ∷ (params ++ (last ∷ render ps))

abbrev pub plain_text : List Piece → Bytes
plain_text [] = []
plain_text (plain t ∷ ps) = t ++ plain_text ps
plain_text (control params last ∷ ps) = plain_text ps

abbrev pub IsPiece : Piece → Type 0
IsPiece (plain t) = All (λ c. (c == 0x1b) ≡ false) t
IsPiece (control params last) =
    All (λ c. within b'@' b'~' c ≡ false) params × (within b'@' b'~' last ≡ true)

strip_plain :
    (t rest : Bytes)
    → All (λ c. (c == 0x1b) ≡ false) t
    → strip outside (t ++ rest) ≡ t ++ strip outside rest
unfolding strip
strip_plain [] rest h = refl
strip_plain (c ∷ []) [] h = refl
strip_plain (c ∷ []) (d ∷ rest) h = ground arith
strip_plain (c ∷ d ∷ t) rest h = ground (arith, strip_plain (d ∷ t) rest h.1)

strip_params :
    (params rest : Bytes) (last : ℕ)
    → All (λ c. within b'@' b'~' c ≡ false) params
    → within b'@' b'~' last ≡ true
    → strip inside (params ++ (last ∷ rest)) ≡ strip outside rest
unfolding strip
strip_params [] rest last h l = ground arith
strip_params (c ∷ params) rest last h l = ground (arith, strip_params params rest last h.1 l)

-- Of any sequence of plain text and complete control sequences the save file gets exactly the
-- plain text, in order.
pub save_write_stripped-render :
    (ps : List Piece) → All IsPiece ps → save_write_stripped (render ps) ≡ plain_text ps
unfolding save_write_stripped strip
save_write_stripped-render [] h = refl
save_write_stripped-render (plain t ∷ ps) h =
    strip_plain t (render ps) h.0 ∙ ap (◌++◌ t) (save_write_stripped-render ps h.1)
save_write_stripped-render (control params last ∷ ps) h =
    strip_params params (render ps) last h.0.0 h.0.1 ∙ save_write_stripped-render ps h.1
