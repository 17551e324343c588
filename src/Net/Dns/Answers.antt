-- ===== src/Net/Dns/Answers.antt =====
-- kernel/src/net.c: the resolver finds the first address among the answers of a DNS reply.
use choco_os.Base.{
  ℕ, ◌+◌, ◌/◌, ◌%◌, ◌≤◌, ◌<◌, ◌≡◌, refl, sym, ap, subst, ◌∙◌, true, false, ◌&&◌, ltb, leb, ◌==◌,
  none, some, List, [], ◌∷◌, ◌++◌, length, take, drop, byte_at, length-append, arith, Bool-cases,
  inl, inr,
}
use choco_os.Net.Dns.{be16, walk_answers, dns_answer}
use choco_os.Net.Dns.Reply.{
  At, At-append, slice-At, labels_text, AreLabels, Owner, pointer, spelled, owner_text, Answer,
  IsAnswer, word, answer_text, answers_text, AreAnswers, first_address, skip_labels-text,
  length-labels, skip_name-text,
}

-- Where the parts of an answer stand.
record Placed (r : List ℕ) (i : ℕ) (a : Answer) (rest : List ℕ) : Type 0 where
  name : At r i (owner_text a.owner)
  kind : be16 r (i + length (owner_text a.owner)) ≡ a.kind
  rdlen : be16 r (i + length (owner_text a.owner) + 8) ≡ length a.rdata
  rdata : At r (i + length (owner_text a.owner) + 10) a.rdata
  behind : At r (i + length (owner_text a.owner) + 10 + length a.rdata) rest

be16-word : (r : List ℕ) (i v : ℕ) → At r i (word v) → be16 r i ≡ v
be16-word r i v h = rw (h.0, h.1.0) (omega arith)

length-answer :
    (a : Answer)
    → IsAnswer a
    → length (answer_text a) ≡ length (owner_text a.owner) + 10 + length a.rdata
length-answer a w =
    let n = word (length a.rdata) ++ a.rdata in
    let m = a.class_ttl ++ n in
    omega (
      arith,
      length-append (owner_text a.owner) (word a.kind ++ m),
      length-append (word a.kind) m,
      length-append a.class_ttl n,
      length-append (word (length a.rdata)) a.rdata,
      w.class_ttl,
    )

placed :
    (r : List ℕ) (i : ℕ) (a : Answer) (rest : List ℕ)
    → IsAnswer a
    → At r i (answer_text a ++ rest)
    → Placed r i a rest
placed r i a rest w h =
    let o = owner_text a.owner in
    let n = word (length a.rdata) ++ a.rdata in
    let m = a.class_ttl ++ n in
    let j = i + length o in
    let (here, behind) = At-append r (answer_text a) rest i h in
    let (at_name, after_name) = At-append r o (word a.kind ++ m) i here in
    let (at_kind, after_kind) = At-append r (word a.kind) m j after_name in
    let (_, after_class) = At-append r a.class_ttl n (j + 2) after_kind in
    let e : j + 2 + length a.class_ttl ≡ j + 8 = omega (arith, w.class_ttl) in
    let (at_len, after_len) =
      At-append r (word (length a.rdata)) a.rdata (j + 8) (subst (λ k. At r k n) e after_class) in
    let f : j + 8 + 2 ≡ j + 10 = omega arith in
    let g : i + length (answer_text a) ≡ j + 10 + length a.rdata =
      omega (arith, length-answer a w) in
    record {
      name = at_name;
      kind = be16-word r j a.kind at_kind;
      rdlen = be16-word r (j + 8) (length a.rdata) at_len;
      rdata = subst (λ k. At r k a.rdata) f after_len;
      behind = subst (λ k. At r k rest) g behind;
    }

owner-filled : (o : Owner) → 0 < length (owner_text o)
owner-filled (pointer high low) = omega arith
owner-filled (spelled ls) = omega (arith, length-append (labels_text ls) (0 ∷ []))

answers-filled :
    (a : Answer) (more : List Answer) → IsAnswer a → 11 ≤ length (answers_text (a ∷ more))
answers-filled a more w = omega (
  arith,
  length-append (answer_text a) (answers_text more),
  length-answer a w,
  owner-filled a.owner,
)

-- What is shorter than 12 bytes has no address in it.
nothing_left :
    (a : Answer) (more : List Answer)
    → AreAnswers (a ∷ more)
    → length (answers_text (a ∷ more)) < 12
    → first_address (a ∷ more) ≡ none
nothing_left a [] w h =
    let size = length-append (answer_text a) [] in
    let e : (length a.rdata == 4) ≡ false =
      ground (arith, size, length-answer a w.0, owner-filled a.owner) in
    elim (Bool-cases (a.kind == 1)) [ inl k ↦ rw (k, e) refl | inr k ↦ rw k refl ]
nothing_left a (b ∷ more) w h = absurd (
    omega (
      arith,
      length-append (answer_text a) (answers_text (b ∷ more)),
      length-answer a w.0,
      answers-filled b more w.1.0,
    ))

-- The four bytes of an address.
address_bytes :
    (r : List ℕ) (k : ℕ) (xs : List ℕ)
    → At r k xs
    → (length xs == 4) ≡ true
    → k + 4 ≤ length r
    → take 4 (drop k r) ≡ xs
address_bytes r k xs h e room =
    let four : length xs ≡ 4 = ground arith in
    ap (λ n. take n (drop k r)) (sym four) ∙ slice-At k r xs h (omega arith)

walk_answers-text :
    (r : List ℕ) (rlen : ℕ) (answers : List Answer) (i : ℕ)
    → AreAnswers answers
    → At r i (answers_text answers)
    → i + length (answers_text answers) ≡ rlen
    → rlen ≤ length r
    → walk_answers (length answers) r rlen i ≡ some (first_address answers)
unfolding walk_answers
walk_answers-text r rlen [] i w h total room = refl
walk_answers-text r rlen (a ∷ more) i w h total room =
    let p = placed r i a (answers_text more) w.0 h in
    let o = length (owner_text a.owner) in
    let n = length a.rdata in
    let size = length-append (answer_text a) (answers_text more) in
    let size' = length-answer a w.0 in
    let filled = owner-filled a.owner in
    let named = skip_name-text r rlen a.owner i (w.0.owner) p.name (omega (arith, size, size')) in
    let ih =
      walk_answers-text r rlen more (i + o + 10 + n) w.1 p.behind (omega (arith, size, size'))
        room in
    let inside : ltb rlen (i + o + 10) ≡ false = ground (arith, size, size') in
    let fits : leb (i + o + 10 + n) rlen ≡ true = ground (arith, size, size') in
    elim (Bool-cases (leb (i + 12) rlen)) [
      | inl e ↦
          rw (e, named)
            (rw (inside, p.kind, p.rdlen)
              (elim (Bool-cases (a.kind == 1 && n == 4)) [
                | inl t ↦
                    let four : (n == 4) ≡ true = ground arith in
                    let one : (a.kind == 1) ≡ true = ground arith in
                    let fits4 : leb (i + o + 10 + 4) rlen ≡ true = ground arith in
                    rw (one, four, fits4)
                      (ap (λ xs. some (some xs))
                        (address_bytes r (i + o + 10) a.rdata p.rdata four (ground arith)))
                | inr f ↦ rw (f, ih) (ground arith)
              ]))
      | inr e ↦ rw e (ap some (sym (nothing_left a more w (ground (arith, size)))))
    ]

-- A datagram in the socket that is a reply to the query: a header of 12 bytes with the id and the
-- count of answers, one question, and the answers.
pub record IsReply (qid : ℕ) (r : List ℕ) (rlen : ℕ) (ls : List (List ℕ)) (answers : List Answer)
    : Type 0 where
  pub id : At r 0 (word qid)
  pub count : be16 r 6 ≡ length answers
  pub type_class : List ℕ
  pub four : length type_class ≡ 4
  pub text : At r 12 ((labels_text ls ++ 0 ∷ []) ++ (type_class ++ answers_text answers))
  pub size : rlen ≡ 12 + length (labels_text ls) + 5 + length (answers_text answers)
  pub room : rlen ≤ length r
  pub labels : AreLabels ls
  pub spelled_answers : AreAnswers answers

-- From a reply to its query, in which the name of an answer is a pointer alone or labels up to a zero
-- byte, the resolver takes the first answer that is an address of four bytes, whatever other answers
-- stand before it, and nothing when there is none. A name of labels that ends in a pointer is left out
-- here.
pub dns_answer-first :
    (qid : ℕ) (r : List ℕ) (rlen : ℕ) (ls : List (List ℕ)) (answers : List Answer)
    → IsReply qid r rlen ls answers
    → dns_answer qid r rlen ≡ some (first_address answers)
unfolding dns_answer
dns_answer-first qid r rlen ls answers p =
    let name = labels_text ls in
    let (at_name, at_rest) =
      At-append r (name ++ 0 ∷ []) (p.type_class ++ answers_text answers) 12 p.text in
    let (_, at_answers) =
      At-append r p.type_class (answers_text answers) (12 + length (name ++ 0 ∷ [])) at_rest in
    let size = length-append name (0 ∷ []) in
    let start : 12 + length (name ++ 0 ∷ []) + length p.type_class ≡ 12 + length name + 5 =
      omega (arith, size, p.four) in
    let skipped =
      skip_labels-text r rlen ls (rlen + 1) 12 p.labels at_name
        (omega (arith, length-labels ls, p.size)) (omega (arith, p.size)) in
    let walked =
      walk_answers-text r rlen answers (12 + length name + 5) p.spelled_answers
        (subst (λ k. At r k (answers_text answers)) start at_answers) (omega (arith, p.size))
        p.room in
    let long : ltb 12 rlen ≡ true = ground (arith, p.size) in
    let high : (byte_at r 0 == qid / 256) ≡ true = ground (arith, p.id.0) in
    let low : (byte_at r 1 == qid % 256) ≡ true = ground (arith, p.id.1.0) in
    rw (long, high, low) (rw (skipped, p.count) walked)
