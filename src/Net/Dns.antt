-- ===== src/Net/Dns.antt =====
-- kernel/src/net.c: the DNS resolver. The query is the bytes of `q` before `pos`, a name its
-- characters without the NUL, and a reply `r` the bytes of the socket's buffer, of which `rlen` are
-- the datagram. The inner `none` of a result is the failure of the code, the outer one a loop that has
-- not ended.
pub mod Reply
pub mod Answers
use choco_os.Base.{
  ℕ, zero, suc, ◌+◌, ◌-◌, ◌*◌, ◌/◌, ◌%◌, ◌^◌, Bool, true, false, not, ◌&&◌, ◌||◌, ltb, leb, ◌==◌,
  if◌then◌else◌, Option, none, some, List, [], ◌∷◌, ◌++◌, length, take, drop, byte_at, bit_and,
}

abbrev pub dot : ℕ
dot = 46

-- The label up to the next dot, and what is left behind it and behind the dot.
unfoldable pub label_of : List ℕ → List ℕ
label_of [] = []
label_of (c ∷ cs) = let rest = label_of cs in if c == dot then [] else c ∷ rest

unfoldable pub after_label : List ℕ → List ℕ
after_label [] = []
after_label (c ∷ cs) = let rest = after_label cs in if c == dot then cs else rest

-- The loop that writes the labels, with `pos` bytes in the query.
unfoldable pub put_labels : (rounds : ℕ) → (p : List ℕ) → (pos : ℕ) → Option (Option (List ℕ))
put_labels rounds [] pos = some (some [])
put_labels zero (c ∷ cs) pos = none
put_labels (suc rounds) (c ∷ cs) pos =
    let label = label_of (c ∷ cs) in
    let len = length label in
    let more : Option (Option (List ℕ)) =
      elim (put_labels rounds (after_label (c ∷ cs)) (pos + 1 + len)) [
        | none ↦ none
        | some none ↦ some none
        | some (some out) ↦ some (some (len ∷ label ++ out))
      ] in
    if (len == 0) || ltb 63 len || ltb 500 (pos + len + 1) then some none else more

-- The query: id, RD, one question, the labels, and type A of class IN.
unfoldable pub dns_query : (qid : ℕ) → (name : List ℕ) → Option (Option (List ℕ))
dns_query qid name = elim (put_labels (length name) name 12) [
  | none ↦ none
  | some none ↦ some none
  | some (some labels) ↦ some (
      some (
        (qid / 256 ∷ qid % 256 ∷ 1 ∷ 0 ∷ 0 ∷ 1 ∷ 0 ∷ 0 ∷ 0 ∷ 0 ∷ 0 ∷ 0 ∷ [])
        ++ labels
        ++ (0 ∷ 0 ∷ 1 ∷ 0 ∷ 1 ∷ [])))
]

-- A 16-bit field, the high byte first.
abbrev pub be16 : List ℕ → ℕ → ℕ
be16 r i = byte_at r i * 256 + byte_at r (i + 1)

-- `while (i < rlen && r[i] != 0) i += r[i] + 1;`
unfoldable pub skip_labels : (rounds : ℕ) → List ℕ → (rlen i : ℕ) → Option ℕ
skip_labels zero r rlen i = none
skip_labels (suc rounds) r rlen i =
    let more = skip_labels rounds r rlen (i + byte_at r i + 1) in
    if ltb i rlen && not (byte_at r i == 0) then more else some i

-- The name of an answer: a compressed one, or labels and the zero behind them.
unfoldable pub skip_name : List ℕ → (rlen i : ℕ) → Option ℕ
skip_name r rlen i =
    let labels : Option ℕ = elim (skip_labels (rlen + 1) r rlen i) [
      | none ↦ none
      | some j ↦ some (j + 1)
    ] in
    if bit_and (byte_at r i) 0xc0 == 0xc0 then some (i + 2) else labels

-- The loop over the answers with `a` of them left: the four bytes of the first address, if there is
-- one.
unfoldable pub walk_answers : (a : ℕ) → List ℕ → (rlen i : ℕ) → Option (Option (List ℕ))
walk_answers zero r rlen i = some none
walk_answers (suc a) r rlen i =
    let found : Option (Option (List ℕ)) = elim (skip_name r rlen i) [
      | none ↦ none
      | some j ↦
          let rdlen = be16 r (j + 8) in
          let more = walk_answers a r rlen (j + 10 + rdlen) in
          if ltb rlen (j + 10)
          then some none
          else if be16 r j == 1 && rdlen == 4 && leb (j + 10 + 4) rlen
          then some (some (take 4 (drop (j + 10) r)))
          else more
    ] in
    if leb (i + 12) rlen then found else some none

-- What a datagram in the socket says to the query `qid`.
unfoldable pub dns_answer : (qid : ℕ) → List ℕ → (rlen : ℕ) → Option (Option (List ℕ))
dns_answer qid r rlen =
    let found : Option (Option (List ℕ)) = elim (skip_labels (rlen + 1) r rlen 12) [
      | none ↦ none
      | some i ↦ walk_answers (be16 r 6) r rlen (i + 5)
    ] in
    if ltb 12 rlen && byte_at r 0 == qid / 256 && byte_at r 1 == qid % 256 then found else some none

-- The port of the next query: `eport++`, and back to 49152 behind 65535.
pub next_eport : ℕ → ℕ
next_eport eport = let e = (eport + 1) % 65536 in if ltb e 49152 then 49152 else e
