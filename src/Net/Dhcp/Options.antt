-- ===== src/Net/Dhcp/Options.antt =====
-- kernel/src/net.c: what the client reads from the options of a DHCP message, as the protocol spells
-- them.
use choco_os.Base.{
  ℕ, zero, suc, ◌+◌, ◌≤◌, ◌<◌, ◌≡◌, ◌≢◌, refl, ap, subst, ◌∙◌, true, false, not, ◌==◌, ltb, leb,
  some, List, [], ◌∷◌, ◌++◌, length, length-append, arith, Bool-cases, inl, inr, if◌then◌else◌,
}
use choco_os.Net.{field32}
use choco_os.Net.Dns.Reply.{At, At-append}
use choco_os.Net.Dhcp.{scan_options, Config, configure, dhcp_parse_opts}

-- An option of the protocol: its code and its value. 0 is padding and 255 the end.
pub record DhcpOption : Type 0 where
  pub code : ℕ
  pub value : List ℕ

abbrev pub IsOption : DhcpOption → Type 0
IsOption o = (o.code ≢ 0) × (o.code ≢ 255)

abbrev pub AreOptions : List DhcpOption → Type 0
AreOptions [] = Unit {0}
AreOptions (o ∷ os) = IsOption o × AreOptions os

abbrev pub options_text : List DhcpOption → List ℕ
options_text [] = 255 ∷ []
options_text (o ∷ os) = o.code ∷ length o.value ∷ (o.value ++ options_text os)

length-options : (os : List DhcpOption) → length os < length (options_text os)
length-options [] = omega arith
length-options (o ∷ os) = omega (arith, length-options os, length-append o.value (options_text os))

module _ {S : Type 0} (text : List ℕ) (olen : ℕ) (visit : (code len value : ℕ) → S → S)
    (apply : DhcpOption → S → S)
    (agree : (o : DhcpOption) (i : ℕ) (s : S)
      → At text i o.value
      → visit o.code (length o.value) i s ≡ apply o s) where
  abbrev pub applied : List DhcpOption → S → S
  applied [] s = s
  applied (o ∷ os) s = applied os (apply o s)

  pub scan_options-text :
      (os : List DhcpOption) (rounds i : ℕ) (s : S)
      → AreOptions os
      → At text i (options_text os)
      → length os < rounds
      → i + length (options_text os) ≤ olen
      → scan_options rounds visit text olen i s ≡ some (applied os s)
  unfolding scan_options
  scan_options-text os zero i s w h f room = absurd (omega arith)
  scan_options-text [] (suc rounds) i s w h f room = rw (h.0) (ground arith)
  scan_options-text (o ∷ os) (suc rounds) i s w h f room =
      let n = length o.value in
      let size = length-append o.value (options_text os) in
      let j : i + 1 + 1 ≡ i + 2 = omega arith in
      let body : At text (i + 2) (o.value ++ options_text os) =
        subst (λ k. At text k (o.value ++ options_text os)) j h.1.1 in
      let (here, behind) = At-append text o.value (options_text os) (i + 2) body in
      let k : i + 2 + n ≡ i + (2 + n) = omega arith in
      let inside : ltb (i + 1) olen ≡ true = ground (arith, size, length-options os) in
      let not_end : (o.code == 255) ≡ false = ground (arith, w.0) in
      let not_pad : (o.code == 0) ≡ false = ground (arith, w.0) in
      rw (h.0, h.1.0, inside, not_end, not_pad)
        (rw (agree o (i + 2) s here) (
          scan_options-text os rounds (i + (2 + n)) (apply o s) w.1
            (subst (λ m. At text m (options_text os)) k behind) (omega arith)
            (omega (arith, size))))

-- What an option says of the mask, the gateway and the DNS server.
abbrev pub configured : DhcpOption → Config → Config
configured o c =
    let address = field32 o.value 0 in
    if not (leb 4 (length o.value))
    then c
    else if o.code == 1
    then (address, c.1, c.2)
    else if o.code == 3
    then (c.0, address, c.2)
    else if o.code == 6
    then (c.0, c.1, address)
    else c

abbrev pub configured_by : List DhcpOption → Config → Config
configured_by [] c = c
configured_by (o ∷ os) c = configured_by os (configured o c)

first_four :
    (text value : List ℕ) (i : ℕ)
    → At text i value
    → 4 ≤ length value
    → field32 text i ≡ field32 value 0
first_four text [] i h l = absurd (omega arith)
first_four text (a ∷ []) i h l = absurd (omega arith)
first_four text (a ∷ b ∷ []) i h l = absurd (omega arith)
first_four text (a ∷ b ∷ c ∷ []) i h l = absurd (omega arith)
first_four text (a ∷ b ∷ c ∷ d ∷ value) i h l =
    let e : i + 2 ≡ i + 1 + 1 = omega arith in
    let f : i + 2 + 1 ≡ i + 1 + 1 + 1 = omega arith in
    rw (h.0, h.1.0, f) (rw (h.1.1.1.0) (rw e (rw (h.1.1.0) refl)))

configure-agrees :
    (text : List ℕ) (o : DhcpOption) (i : ℕ) (c : Config)
    → At text i o.value
    → configure text o.code (length o.value) i c ≡ configured o c
configure-agrees text o i c h = elim (Bool-cases (leb 4 (length o.value))) [
  | inl e ↦ rw e (
      let four = first_four text o.value i h (ground arith) in
      rw four (elim (Bool-cases (o.code == 1)) [
        | inl a ↦ rw a refl
        | inr a ↦ elim (Bool-cases (o.code == 3)) [
          | inl b ↦ rw (a, b) refl
          | inr b ↦ elim (Bool-cases (o.code == 6)) [
            | inl d ↦ rw (a, b, d) refl
            | inr d ↦ rw (a, b, d) refl
          ]
        ]
      ]))
  | inr e ↦ rw e (ground arith)
]

applied-configured :
    (text : List ℕ) (olen : ℕ) (os : List DhcpOption) (c : Config)
    → (agree : (o : DhcpOption) (i : ℕ) (s : Config)
        → At text i o.value
        → configure text o.code (length o.value) i s ≡ configured o s)
    → applied text olen (configure text) configured agree os c ≡ configured_by os c
applied-configured text olen [] c agree = refl
applied-configured text olen (o ∷ os) c agree =
    applied-configured text olen os (configured o c) agree

-- `dhcp_parse_opts` reads the options of a message in their order: an option of code 1, 3 or 6 with
-- at least four bytes sets the mask, the gateway or the DNS server to its first four, and all others
-- are passed over.
pub dhcp_parse_opts-text :
    (text : List ℕ) (olen : ℕ) (os : List DhcpOption) (c : Config)
    → AreOptions os
    → At text 0 (options_text os)
    → length (options_text os) ≤ olen
    → dhcp_parse_opts text olen c ≡ some (configured_by os c)
unfolding dhcp_parse_opts
dhcp_parse_opts-text text olen os c w h room =
    let agree = configure-agrees text in
    scan_options-text text olen (configure text) configured agree os (olen + 1) 0 c w h
      (omega (arith, length-options os)) (omega arith)
    ∙ ap some (applied-configured text olen os c agree)
