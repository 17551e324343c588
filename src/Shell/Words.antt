-- ===== src/Shell/Words.antt =====
-- kernel/src/shell.c: `process_command` finds the words of a line.
use choco_os.Base.{ℕ, zero, suc, ◌≡◌, refl, ap, ap₂, ◌∙◌, true, false, List, [], ◌∷◌, ◌++◌, take}
use choco_os.Shell.{is_blank, skip_blanks, word_of, after_word, past_blank, split_words}

abbrev pub AllBlank : List ℕ → Type 0
AllBlank [] = Unit {0}
AllBlank (c ∷ cs) = (is_blank c ≡ true) × AllBlank cs

abbrev pub NoneBlank : List ℕ → Type 0
NoneBlank [] = Unit {0}
NoneBlank (c ∷ cs) = (is_blank c ≡ false) × NoneBlank cs

abbrev pub IsFilled : List ℕ → Type 0
IsFilled [] = ⊥
IsFilled (c ∷ cs) = Unit {0}

-- A line as words with blanks before each of them, and blanks at the end.
abbrev pub spaced : List (List ℕ × List ℕ) → (end : List ℕ) → List ℕ
spaced [] end = end
spaced ((gap, word) ∷ rest) end = gap ++ (word ++ spaced rest end)

abbrev pub words : List (List ℕ × List ℕ) → List (List ℕ)
words [] = []
words ((gap, word) ∷ rest) = word ∷ words rest

abbrev pub AreParted : List (List ℕ × List ℕ) → Type 0
AreParted [] = Unit {0}
AreParted ((gap, word) ∷ rest) = IsFilled gap

-- Words are not empty and have no blanks; between two words there is a blank.
abbrev pub AreSpaced : List (List ℕ × List ℕ) → Type 0
AreSpaced [] = Unit {0}
AreSpaced ((gap, word) ∷ rest) =
    AllBlank gap × IsFilled word × NoneBlank word × AreSpaced rest × AreParted rest

abbrev StartsBlank : List ℕ → Type 0
StartsBlank [] = Unit {0}
StartsBlank (c ∷ cs) = is_blank c ≡ true

skip_blanks-gap :
    (gap : List ℕ) (c : ℕ) (cs : List ℕ)
    → AllBlank gap
    → is_blank c ≡ false
    → skip_blanks (gap ++ c ∷ cs) ≡ c ∷ cs
unfolding skip_blanks
skip_blanks-gap [] c cs h k = rw k refl
skip_blanks-gap (b ∷ gap) c cs h k = rw (h.0) (skip_blanks-gap gap c cs h.1 k)

skip_blanks-end : (end : List ℕ) → AllBlank end → skip_blanks end ≡ []
unfolding skip_blanks
skip_blanks-end [] h = refl
skip_blanks-end (b ∷ end) h = rw (h.0) (skip_blanks-end end h.1)

word_of-append : (w rest : List ℕ) → NoneBlank w → StartsBlank rest → word_of (w ++ rest) ≡ w
unfolding word_of
word_of-append [] [] h k = refl
word_of-append [] (b ∷ rest) h k = rw k refl
word_of-append (c ∷ w) rest h k = rw (h.0) (ap (◌∷◌ c) (word_of-append w rest h.1 k))

after_word-append :
    (w rest : List ℕ) → NoneBlank w → StartsBlank rest → after_word (w ++ rest) ≡ rest
unfolding after_word
after_word-append [] [] h k = refl
after_word-append [] (b ∷ rest) h k = rw k refl
after_word-append (c ∷ w) rest h k = rw (h.0) (after_word-append w rest h.1 k)

split_step :
    (n c : ℕ) (p cs : List ℕ)
    → skip_blanks p ≡ c ∷ cs
    → split_words (suc n) p ≡ word_of (c ∷ cs) ∷ split_words n (past_blank (after_word (c ∷ cs)))
unfolding split_words
split_step n c p cs e = rw (e, split_words) refl

split_end : (n : ℕ) (p : List ℕ) → skip_blanks p ≡ [] → split_words (suc n) p ≡ []
unfolding split_words
split_end n p e = rw (e, split_words) refl

-- One word, and what is behind it.
split_word :
    (n c : ℕ) (gap w rest : List ℕ)
    → AllBlank gap
    → NoneBlank (c ∷ w)
    → StartsBlank rest
    → split_words (suc n) (gap ++ ((c ∷ w) ++ rest)) ≡ (c ∷ w) ∷ split_words n (past_blank rest)
split_word n c gap w rest g h k =
    split_step n c (gap ++ ((c ∷ w) ++ rest)) (w ++ rest) (skip_blanks-gap gap c (w ++ rest) g h.0)
    ∙ ap₂ ◌∷◌ (word_of-append (c ∷ w) rest h k)
        (ap (λ r. split_words n (past_blank r)) (after_word-append (c ∷ w) rest h k))

StartsBlank-end : (end : List ℕ) → AllBlank end → StartsBlank end
StartsBlank-end [] h = tt
StartsBlank-end (c ∷ cs) h = h.0

past_blank-AllBlank : (end : List ℕ) → AllBlank end → AllBlank (past_blank end)
past_blank-AllBlank [] h = tt
past_blank-AllBlank (c ∷ cs) h = h.1

-- `process_command` splits a line into its words, whatever blanks stand before, between and behind
-- them, and keeps the first `n`, of which there is room.
pub split_words-spaced :
    (n : ℕ) (ps : List (List ℕ × List ℕ)) (end : List ℕ)
    → AreSpaced ps
    → AllBlank end
    → split_words n (spaced ps end) ≡ take n (words ps)
unfolding split_words
split_words-spaced zero ps end h k = refl
split_words-spaced (suc n) [] end h k = split_end n end (skip_blanks-end end k)
split_words-spaced (suc n) ((gap, []) ∷ ps) end h k = absurd (h.1)
split_words-spaced (suc n) ((gap, c ∷ w) ∷ []) end h k =
    split_word n c gap w end h.0 h.2 (StartsBlank-end end k)
    ∙ ap (◌∷◌ (c ∷ w)) (split_words-spaced n [] (past_blank end) tt (past_blank-AllBlank end k))
split_words-spaced (suc n) ((gap, c ∷ w) ∷ ([], v) ∷ ps) end h k = absurd (h.4)
split_words-spaced (suc n) ((gap, c ∷ w) ∷ (b ∷ next, v) ∷ ps) end h k =
    split_word n c gap w (spaced ((b ∷ next, v) ∷ ps) end) h.0 h.2 (h.3.0.0)
    ∙ ap (◌∷◌ (c ∷ w))
        (split_words-spaced n ((next, v) ∷ ps) end (h.3.0.1, h.3.1, h.3.2, h.3.3, h.3.4) k)
