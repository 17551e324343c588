-- ===== src/Kprintf/Stream.antt =====
-- kernel/src/kprintf.c: the output of a format is one text, whatever the buffer, and the buffer gets as
-- much of it as fits.
use choco_os.Base.{
  ℕ, zero, suc, ◌-◌, ◌≡◌, refl, ◌∙◌, Bool, true, false, ◌||◌, ◌==◌, ◌%◌, ◌^◌, if◌then◌else◌, List,
  [], ◌∷◌, ◌++◌, length, replicate, ap,
}
use choco_os.Kprintf.{
  OutBuf, out_char, out_pad, out_string, out_number, out_text, Arg, Spec, convert, number_text,
  next_word, next_string, rest_args, text_of, signed_arg, unsigned_arg,
}

-- A step that puts out one text.
abbrev pub Writes : (OutBuf → OutBuf) → Type 0
Writes f = (cs : List ℕ) × ((o : OutBuf) → f o ≡ out_string o cs)

pub out_string-append :
    (o : OutBuf) (cs ds : List ℕ) → out_string (out_string o cs) ds ≡ out_string o (cs ++ ds)
unfolding out_string
out_string-append o [] ds = refl
out_string-append o (c ∷ cs) ds = out_string-append (out_char o c) cs ds

after_string : (cs : List ℕ) (g : OutBuf → OutBuf) → Writes g → Writes (λ o. g (out_string o cs))
after_string cs g (ds, h) = (cs ++ ds, λ o. h (out_string o cs) ∙ out_string-append o cs ds)

then_Writes : (f g : OutBuf → OutBuf) → Writes f → Writes g → Writes (λ o. g (f o))
then_Writes f g (cs, h) (ds, k) =
    (cs ++ ds, λ o. ap g (h o) ∙ k (out_string o cs) ∙ out_string-append o cs ds)

out_char-Writes : (c : ℕ) → Writes (λ o. out_char o c)
unfolding out_string
out_char-Writes c = (c ∷ [], λ o. refl)

string-Writes : (cs : List ℕ) → Writes (λ o. out_string o cs)
string-Writes cs = (cs, λ o. refl)

nothing-Writes : Writes (λ o. o)
unfolding out_string
nothing-Writes = ([], λ o. refl)

out_pad-string : (pad n : ℕ) (o : OutBuf) → out_pad o pad n ≡ out_string o (replicate n pad)
unfolding out_pad out_string
out_pad-string pad zero o = refl
out_pad-string pad (suc n) o = out_pad-string pad n (out_char o pad)

out_pad-Writes : (pad n : ℕ) → Writes (λ o. out_pad o pad n)
out_pad-Writes pad n = (replicate n pad, out_pad-string pad n)

out_number-Writes :
    (value base : ℕ) (negative upper : Bool) (width : ℕ) (zero_pad left : Bool)
    → Writes (λ o. out_number o value base negative upper width zero_pad left)
unfolding out_number
out_number-Writes value base negative upper width zero_pad true =
    let text = number_text value base negative upper in
    then_Writes (λ o. out_string o text) (λ o. out_pad o 32 (width - length text))
      (string-Writes text) (out_pad-Writes 32 (width - length text))
out_number-Writes value base negative upper width zero_pad false =
    let text = number_text value base negative upper in
    let pad = if zero_pad then 48 else 32 in
    then_Writes (λ o. out_pad o pad (width - length text)) (λ o. out_string o text)
      (out_pad-Writes pad (width - length text)) (string-Writes text)

out_text-cases :
    (s : List ℕ) (left zero_pad long : Bool) (width : ℕ)
    → Writes (λ o.
      out_text o s (record { left = left; zero_pad = zero_pad; width = width; long = long }))
unfolding out_text
out_text-cases s true zero_pad long width =
    then_Writes (λ o. out_string o s) (λ o. out_pad o 32 (width - length s)) (string-Writes s)
      (out_pad-Writes 32 (width - length s))
out_text-cases s false zero_pad long width =
    then_Writes (λ o. out_pad o 32 (width - length s)) (λ o. out_string o s)
      (out_pad-Writes 32 (width - length s)) (string-Writes s)

out_text-Writes : (s : List ℕ) (spec : Spec) → Writes (λ o. out_text o s spec)
out_text-Writes s spec = out_text-cases s spec.left spec.zero_pad spec.long spec.width

-- A conversion puts out one text and leaves the same arguments, whatever the buffer.
abbrev pub Converts : (OutBuf → OutBuf × List Arg) → Type 0
Converts f = (cs : List ℕ) × (args : List Arg) × ((o : OutBuf) → f o ≡ (out_string o cs, args))

converts : (f : OutBuf → OutBuf) (args : List Arg) → Writes f → Converts (λ o. (f o, args))
converts f args (cs, h) = (cs, args, λ o. ap (λ p. (p, args)) (h o))

either :
    (b : Bool) (f g : OutBuf → OutBuf × List Arg)
    → Converts f
    → Converts g
    → Converts (λ o. if b then f o else g o)
either true f g p q = p
either false f g p q = q

pub convert-Converts : (s : Spec) (c : ℕ) (args : List Arg) → Converts (λ o. convert o s c args)
unfolding convert
convert-Converts s c args =
    let w = next_word args in
    let d = signed_arg s.long w in
    let u = unsigned_arg s.long w in
    let rest = rest_args args in
    either (c == 115) _ _
      (converts (λ o. out_text o (text_of (next_string args)) s) rest
        (out_text-Writes (text_of (next_string args)) s))
      (either (c == 99) _ _ (converts (λ o. out_char o (w % 256)) rest (out_char-Writes (w % 256)))
        (either ((c == 100) || (c == 105)) _ _
          (converts (λ o. out_number o d.1 10 d.0 false s.width s.zero_pad s.left) rest
            (out_number-Writes d.1 10 d.0 false s.width s.zero_pad s.left))
          (either (c == 117) _ _
            (converts (λ o. out_number o u 10 false false s.width s.zero_pad s.left) rest
              (out_number-Writes u 10 false false s.width s.zero_pad s.left))
            (either ((c == 120) || (c == 88)) _ _
              (converts (λ o. out_number o u 16 false (c == 88) s.width s.zero_pad s.left) rest
                (out_number-Writes u 16 false (c == 88) s.width s.zero_pad s.left))
              (either (c == 112) _ _
                (converts
                  (λ o.
                    out_number (out_char (out_char o 48) 120) (w % 2 ^ 64) 16 false false 16 true
                      false)
                  rest
                  (then_Writes (λ o. out_char (out_char o 48) 120)
                    (λ o. out_number o (w % 2 ^ 64) 16 false false 16 true false)
                    (then_Writes (λ o. out_char o 48) (λ o. out_char o 120) (out_char-Writes 48)
                      (out_char-Writes 120))
                    (out_number-Writes (w % 2 ^ 64) 16 false false 16 true false)))
                (either (c == 37) _ _ (converts (λ o. out_char o 37) args (out_char-Writes 37)) (
                  converts (λ o. out_char (out_char o 37) c) args
                    (then_Writes (λ o. out_char o 37) (λ o. out_char o c) (out_char-Writes 37)
                      (out_char-Writes c)))))))))
