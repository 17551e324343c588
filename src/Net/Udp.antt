-- ===== src/Net/Udp.antt =====
-- kernel/src/net.c: an incoming frame leaves the stack's state valid, and a datagram is delivered once.
use choco_os.Base.{
  Bool, true, false, sym, true≢false, ==_refl, ℕ, zero, suc, ◌+◌, ◌-◌, ◌≤◌, ◌<◌, ◌≡◌, ◌≢◌, refl,
  ◌∙◌, not, ◌&&◌, ltb, leb, ◌==◌, List, [], ◌∷◌, ◌++◌, length, take, drop, arith, Bool-cases, inl,
  inr, length-take, length-append, ap,
}
use choco_os.Net.{Net, handle_udp, htons16, field16, udp_buf_size}

pub length-drop : (n : ℕ) (xs : List ℕ) → length (drop n xs) ≡ length xs - n
length-drop zero xs = omega arith
length-drop (suc n) [] = omega arith
length-drop (suc n) (x ∷ xs) = omega (arith, length-drop n xs)

pub take-append : (n : ℕ) (xs ys : List ℕ) → length xs ≡ n → take n (xs ++ ys) ≡ xs
take-append zero [] ys h = refl
take-append zero (x ∷ xs) ys h = absurd (omega arith)
take-append (suc n) [] ys h = absurd (omega arith)
take-append (suc n) (x ∷ xs) ys h = ap (λ t. x ∷ t) (take-append n xs ys (omega arith))

-- The socket's buffer, and what of it is a datagram.
pub record IsSocket (s : Net) : Type 0 where
  pub buffer : length s.udp_data ≡ 1024
  pub inside : s.udp_len ≤ 1024

-- A datagram whose length field says `n` bytes behind its header, which are there, and a socket that has
-- room for them, is empty and listens on the datagram's port.
pub record Accepts (s : Net) (p : List ℕ) (n : ℕ) : Type 0 where
  pub header : 8 ≤ length p
  pub says : htons16 (field16 p 4) ≡ n + 8
  pub payload : (0 < n) × (n ≤ 1024) × (n + 8 ≤ length p)
  pub empty : s.udp_len ≡ 0
  pub listens : (s.udp_port ≢ 0) × (s.udp_port ≡ htons16 (field16 p 2))

-- What a datagram does: the socket accepts it and holds the `n` bytes, or does not, and nothing changes.
pub data Delivered (s : Net) (src : ℕ) (p : List ℕ) : Net → Type 0 where
  dropped : ((n : ℕ) → ¬ Accepts s p n) → Delivered s src p s
  delivered :
      (s' : Net) (n : ℕ)
      → Accepts s p n
      → (s'.udp_len ≡ n) × (take n s'.udp_data ≡ take n (drop 8 p)) × (s'.udp_src_ip ≡ src)
      → (s'.arp_cache ≡ s.arp_cache) × (s'.sent ≡ s.sent) × (s'.udp_port ≡ s.udp_port)
      → Delivered s src p s'

module _ (s : Net) (src : ℕ) (p : List ℕ) (i : IsSocket s) (n : ℕ) (pos : 0 < n) (fits : n ≤ 1024)
    (room : n + 8 ≤ length p) where
  abbrev stored : Net
  stored = record s {
    udp_data = take n (drop 8 p) ++ drop n s.udp_data;
    udp_src_ip = src;
    udp_len = n;
  }

  length-taken : length (take n (drop 8 p)) ≡ n
  length-taken = omega (arith, length-take n (drop 8 p), length-drop 8 p)

  stored-IsSocket : IsSocket stored
  stored-IsSocket = record {
    buffer =
        let b = i.buffer in
        length-append (take n (drop 8 p)) (drop n s.udp_data)
        ∙ omega (arith, length-taken, length-drop n s.udp_data);
    inside = fits;
  }

all_six :
    (a b c d e f : Bool)
    → a ≡ true
    → b ≡ true
    → c ≡ true
    → d ≡ true
    → e ≡ true
    → f ≡ true
    → (a && b && c && (d && e && f)) ≡ true
all_six a b c d e f ha hb hc hd he hf = rw (ha, hb, hc, hd, he, hf) refl

too_short : (s : Net) (p : List ℕ) → ltb (length p) 8 ≡ true → (n : ℕ) → ¬ Accepts s p n
too_short s p short n a = let h = a.header in absurd (ground arith)

no_match :
    (s : Net) (p : List ℕ)
    → (not (s.udp_port == 0)
        && (htons16 (field16 p 2) == s.udp_port)
        && (s.udp_len == 0)
        && (not (htons16 (field16 p 4) - 8 == 0)
            && leb (htons16 (field16 p 4) - 8) udp_buf_size
            && leb (htons16 (field16 p 4) - 8) (length p - 8)))
      ≡ false
    → (n : ℕ) → ¬ Accepts s p n
no_match s p e n a =
    let size : htons16 (field16 p 4) - 8 ≡ n = let k = a.says in omega arith in
    let closed = a.listens.0 in
    let port : (s.udp_port == 0) ≡ false = ground arith in
    let same : (htons16 (field16 p 2) == s.udp_port) ≡ true =
      rw (a.listens.1) (==_refl (htons16 (field16 p 2))) in
    let empty : (s.udp_len == 0) ≡ true = rw (a.empty) refl in
    let (pos, small, there) = a.payload in
    let some : (n == 0) ≡ false = ground arith in
    let fits : leb n udp_buf_size ≡ true = ground arith in
    let room : leb n (length p - 8) ≡ true = ground arith in
    true≢false (
      sym (
        all_six (not (s.udp_port == 0)) (htons16 (field16 p 2) == s.udp_port) (s.udp_len == 0)
          (not (htons16 (field16 p 4) - 8 == 0)) (leb (htons16 (field16 p 4) - 8) udp_buf_size)
          (leb (htons16 (field16 p 4) - 8) (length p - 8)) (rw port refl) same empty
          (rw (size, some) refl) (rw (size, fits) refl) (rw (size, room) refl))
      ∙ e)

-- `handle_udp` on a valid socket leaves a valid socket. When the datagram's length field gives a payload of
-- 1 to 1024 bytes that lies inside the packet, and the socket is empty and listens on the datagram's port,
-- the socket holds these bytes and the sender's address, and else nothing changes.
pub handle_udp-Delivered :
    (s : Net) (src : ℕ) (p : List ℕ)
    → IsSocket s
    → IsSocket (handle_udp s src p) × Delivered s src p (handle_udp s src p)
unfolding handle_udp
handle_udp-Delivered s src p i =
    let n = htons16 (field16 p 4) - 8 in
    let listening =
      not (s.udp_port == 0) && (htons16 (field16 p 2) == s.udp_port) && (s.udp_len == 0) in
    let fits = not (n == 0) && leb n udp_buf_size && leb n (length p - 8) in
    elim (Bool-cases (ltb (length p) 8)) [
      | inl short ↦ rw short (i, dropped (too_short s p short))
      | inr long ↦ elim (Bool-cases (listening && fits)) [
        | inr no_match_here ↦ rw (long, no_match_here) (i, dropped (no_match s p no_match_here))
        | inl yes_match ↦
            let enough : 8 ≤ length p = ground arith in
            let pos : 0 < n = ground arith in
            let small : n ≤ 1024 = ground arith in
            let room : n + 8 ≤ length p = ground arith in
            rw (long, yes_match)
              (
                stored-IsSocket s src p i n pos small room,
                delivered (stored s src p i n pos small room) n
                    (record {
                      header = enough;
                      says = ground arith;
                      payload = (pos, small, room);
                      empty = ground arith;
                      listens = (ground arith, ground arith);
                    })
                    (
                      refl,
                      take-append n (take n (drop 8 p)) (drop n s.udp_data)
                          (length-taken s src p i n pos small room),
                      refl,
                    )
                    (refl, refl, refl),
              )
      ]
    ]
