-- ===== src/Ussdsim/Wrapping.antt =====
-- `wrap` of cmd/ussdsim/main.go: it ends, no line is too long, and nothing is lost but spaces.
use openussd.Prelude.{
  ℕ, zero, suc, ◌+◌, ◌≤◌, ◌<◌, ◌≡◌, refl, sym, ◌∙◌, ap, false, Option, some, List, [], ◌∷◌, ◌++◌,
  ltb, leb, length, take, drop, arith, All, All-append, append_assoc, append-nil, Bool-cases,
  length-take, length-drop, inl, inr,
}
use openussd.Strings.{Text, codes, is_space, fields, split}
use openussd.Sdk.Paginate.Content.{ink, ink_all, ink-append, ink-take-drop}
use openussd.Ussdsim.{chop, add_word, wrap_words, last_line, wrap_para, wrap_paras, wrap}
use openussd.Ussdsim.Ink.{ink_all-append, ink_all-fields, ink_all-split}

-- Lines that are done and one that is begun, none too long, with the ink of a text.
record IsBroken (width : ℕ) (text : Text) (result : Option (List Text × Text)) : Type 0 where
  done : List Text
  begun : Text
  returned : result ≡ some (done, begun)
  fits : All (λ (l : Text). length l ≤ width) done
  fits_begun : length begun ≤ width
  same : ink_all done ++ ink begun ≡ text

chop-IsBroken :
    (fuel width : ℕ) (line : Text)
    → 0 < width
    → length line ≤ fuel
    → IsBroken width (ink line) (chop fuel width line)
unfolding chop ink_all
chop-IsBroken zero width line some_width h =
    let short : ltb width (length line) ≡ false = ground arith in
    rw (short, chop)
      (record {
        done = [];
        begun = line;
        returned = refl;
        fits = tt;
        fits_begun = omega (arith, h);
        same = refl;
      })
chop-IsBroken (suc fuel) width line some_width h = elim (Bool-cases (ltb width (length line))) [
  | inr short ↦
      rw (short, chop)
        (record {
          done = [];
          begun = line;
          returned = refl;
          fits = tt;
          fits_begun = ground arith;
          same = refl;
        })
  | inl long ↦
      let left : length (drop width line) ≤ fuel = ground (arith, length-drop width line) in
      let b = chop-IsBroken fuel width (drop width line) some_width left in
      rw (long, chop, b.returned)
        (record {
          done = take width line ∷ b.done;
          begun = b.begun;
          returned = refl;
          fits = (omega (arith, length-take width line), b.fits);
          fits_begun = b.fits_begun;
          same =
              append_assoc (ink (take width line)) (ink_all b.done) (ink b.begun)
              ∙ ap (λ t. ink (take width line) ++ t) b.same
              ∙ ink-take-drop width line;
        })
]

add_word-keeps :
    (width : ℕ) (line word : Text)
    → length line ≤ width
    → All (λ (l : Text). length l ≤ width) (add_word width line word).0
      × (ink_all (add_word width line word).0 ++ ink (add_word width line word).1
          ≡ ink line ++ ink word)
unfolding ink_all ink is_space
add_word-keeps width [] word h = (tt, refl)
add_word-keeps width (c ∷ line) word h =
    elim (Bool-cases (leb (length (c ∷ line) + 1 + length word) width)) [
      | inl room ↦ rw room (tt, ink-append (c ∷ line) (codes " " ++ word))
      | inr full ↦ rw full ((h, tt), ap (λ t. t ++ ink word) (append-nil (ink (c ∷ line))))
    ]

joined :
    (done pieces outs : List Text) (begun left last text line word rest : Text)
    → ink_all done ++ ink begun ≡ ink line ++ ink word
    → ink_all pieces ++ ink left ≡ ink begun
    → ink_all outs ++ ink last ≡ ink left ++ rest
    → ink_all (done ++ (pieces ++ outs)) ++ ink last ≡ ink line ++ (ink word ++ rest)
joined done pieces outs begun left last text line word rest added chopped more =
    ap (λ t. t ++ ink last)
      (ink_all-append done (pieces ++ outs)
        ∙ ap (λ t. ink_all done ++ t) (ink_all-append pieces outs))
    ∙ append_assoc (ink_all done) (ink_all pieces ++ ink_all outs) (ink last)
    ∙ ap (λ t. ink_all done ++ t)
        (append_assoc (ink_all pieces) (ink_all outs) (ink last)
          ∙ ap (λ t. ink_all pieces ++ t) more
          ∙ sym (append_assoc (ink_all pieces) (ink left) rest)
          ∙ ap (λ t. t ++ rest) chopped)
    ∙ sym (append_assoc (ink_all done) (ink begun) rest)
    ∙ ap (λ t. t ++ rest) added
    ∙ append_assoc (ink line) (ink word) rest

wrap_words-IsBroken :
    (width : ℕ) (line : Text) (words : List Text)
    → 0 < width
    → length line ≤ width
    → IsBroken width (ink line ++ ink_all words) (wrap_words width line words)
unfolding wrap_words ink_all
wrap_words-IsBroken width line [] some_width h = record {
  done = [];
  begun = line;
  returned = refl;
  fits = tt;
  fits_begun = h;
  same = sym (append-nil (ink line));
}
wrap_words-IsBroken width line (word ∷ words) some_width h =
    let (fits, added) = add_word-keeps width line word h in
    let begun = (add_word width line word).1 in
    let b = chop-IsBroken (length begun) width begun some_width (omega arith) in
    let more = wrap_words-IsBroken width b.begun words some_width b.fits_begun in
    rw (b.returned, wrap_words, more.returned)
      (record {
        done = (add_word width line word).0 ++ (b.done ++ more.done);
        begun = more.begun;
        returned = refl;
        fits = All-append _ _ _ fits (All-append _ _ _ b.fits more.fits);
        fits_begun = more.fits_begun;
        same =
            joined (add_word width line word).0 b.done more.done begun b.begun more.begun [] line
              word (ink_all words) added b.same more.same;
      })

-- Lines that no screen of the width is too narrow for, with the ink of the text and no other.
pub record IsWrapped (width : ℕ) (text : Text) (result : Option (List Text)) : Type 0 where
  pub lines : List Text
  pub returned : result ≡ some lines
  pub fits : All (λ (l : Text). length l ≤ width) lines
  pub same : ink_all lines ≡ text

last_line-keeps :
    (width : ℕ) (line : Text)
    → length line ≤ width
    → All (λ (l : Text). length l ≤ width) (last_line line) × (ink_all (last_line line) ≡ ink line)
unfolding ink_all ink
last_line-keeps width [] h = (tt, refl)
last_line-keeps width (c ∷ line) h = ((h, tt), append-nil (ink (c ∷ line)))

wrap_para-IsWrapped :
    (width : ℕ) (para : Text) → 0 < width → IsWrapped width (ink para) (wrap_para width para)
unfolding wrap_para ink ink_all
wrap_para-IsWrapped width [] some_width = record {
  lines = [] ∷ [];
  returned = refl;
  fits = (omega arith, tt);
  same = refl;
}
wrap_para-IsWrapped width (c ∷ para) some_width =
    let b = wrap_words-IsBroken width [] (fields (c ∷ para)) some_width (omega arith) in
    let (fits, same) = last_line-keeps width b.begun b.fits_begun in
    rw (b.returned, wrap_para)
      (record {
        lines = b.done ++ last_line b.begun;
        returned = refl;
        fits = All-append _ _ _ b.fits fits;
        same =
            ink_all-append b.done (last_line b.begun)
            ∙ ap (λ t. ink_all b.done ++ t) same
            ∙ b.same
            ∙ ink_all-fields (c ∷ para);
      })

wrap_paras-IsWrapped :
    (width : ℕ) (paras : List Text)
    → 0 < width
    → IsWrapped width (ink_all paras) (wrap_paras width paras)
unfolding wrap_paras ink_all
wrap_paras-IsWrapped width [] some_width = record {
  lines = [];
  returned = refl;
  fits = tt;
  same = refl;
}
wrap_paras-IsWrapped width (para ∷ paras) some_width =
    let first = wrap_para-IsWrapped width para some_width in
    let more = wrap_paras-IsWrapped width paras some_width in
    rw (first.returned, wrap_paras, more.returned)
      (record {
        lines = first.lines ++ more.lines;
        returned = refl;
        fits = All-append _ _ _ first.fits more.fits;
        same =
            ink_all-append first.lines more.lines
            ∙ ap (λ t. t ++ ink_all more.lines) first.same
            ∙ ap (λ t. ink para ++ t) more.same;
      })

-- Wrapping ends, at every width but 0, with lines that are no longer than the width, and loses, adds
-- and moves no rune but spaces.
pub wrap-IsWrapped : (s : Text) (width : ℕ) → 0 < width → IsWrapped width (ink s) (wrap s width)
unfolding wrap
wrap-IsWrapped s width some_width =
    let w = wrap_paras-IsWrapped width (split s 0x0a) some_width in
    record {
      lines = w.lines;
      returned = w.returned;
      fits = w.fits;
      same = w.same ∙ ink_all-split s;
    }
