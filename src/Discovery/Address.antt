-- ===== src/Discovery/Address.antt =====
-- src/sync_discovery.rs: the address that `service_address` chooses.
use rusteyes.Common.{
  ℕ, ◌≡◌, refl, sym, ap, ◌∙◌, subst, true, false, none, some, List, [], ◌∷◌, All, arith, Bool-cases,
  Option-cases, ◌⊎◌, inl, inr,
}
use rusteyes.Common.Text.{Text, text_lt}
use rusteyes.Discovery.{ScopedIp, SocketAddr, socket_addr, address_key, lesser, service_address}

text_lt_irreflexive : (s : Text) → text_lt s s ≡ false
unfolding text_lt
text_lt_irreflexive [] = refl
text_lt_irreflexive (a ∷ s) = ground (arith, text_lt_irreflexive s)

text_lt_asymmetric : (s t : Text) → text_lt s t ≡ true → text_lt t s ≡ false
unfolding text_lt
text_lt_asymmetric [] [] h = refl
text_lt_asymmetric [] (b ∷ t) h = refl
text_lt_asymmetric (a ∷ s) [] h = cc
text_lt_asymmetric (a ∷ s) (b ∷ t) h = ground (arith, text_lt_asymmetric s t)

-- What is below a text is below every text that is not below it.
text_lt_below : (s t u : Text) → text_lt s t ≡ true → text_lt u t ≡ false → text_lt s u ≡ true
unfolding text_lt
text_lt_below [] [] u h k = cc
text_lt_below (a ∷ s) [] u h k = cc
text_lt_below [] (b ∷ t) [] h k = cc
text_lt_below [] (b ∷ t) (d ∷ u) h k = refl
text_lt_below (a ∷ s) (b ∷ t) [] h k = cc
text_lt_below (a ∷ s) (b ∷ t) (d ∷ u) h k = ground (arith, text_lt_below s t u)

-- No address of the list, with the port, comes before the address.
abbrev pub IsLeast : SocketAddr → List ScopedIp → ℕ → Type 0
IsLeast least addresses port =
    All
      (λ ip.
        (a : SocketAddr)
        → socket_addr ip port ≡ some a
        → text_lt (address_key a) (address_key least) ≡ false)
      addresses

-- One of the addresses is this one, with the port.
abbrev pub Offers : SocketAddr → List ScopedIp → ℕ → Type 0
Offers a [] port = ⊥
Offers a (ip ∷ rest) port = (socket_addr ip port ≡ some a) ⊎ Offers a rest port

service_address-none :
    (addresses : List ScopedIp) (port : ℕ) (a : SocketAddr)
    → service_address addresses port ≡ none
    → Offers a addresses port
    → ⊥
unfolding service_address lesser
service_address-none [] port a e h = h
service_address-none (ip ∷ rest) port a e h = elim (Option-cases (socket_addr ip port)) [
  | inr (first, found) ↦ elim (Option-cases (service_address rest port)) [
    | inl missing ↦ ground arith
    | inr (b, later) ↦ ground arith
  ]
  | inl missing ↦ elim h [
    | inl here ↦ cc
    | inr there ↦ service_address-none rest port a (ground arith) there
  ]
]

-- The address that `lesser` keeps is one of the two, and neither is below it.
lesser-cases :
    (first second : SocketAddr) {least : SocketAddr}
    → lesser (some first) (some second) ≡ some least
    → ((least ≡ first) × (text_lt (address_key second) (address_key first) ≡ false))
      ⊎ ((least ≡ second) × (text_lt (address_key second) (address_key first) ≡ true))
unfolding lesser
lesser-cases first second e = elim (Bool-cases (text_lt (address_key second) (address_key first))) [
  | inl below ↦ inr (ground arith, below)
  | inr above ↦ inl (ground arith, above)
]

IsLeast-above :
    (a b : SocketAddr) (addresses : List ScopedIp) (port : ℕ)
    → text_lt (address_key b) (address_key a) ≡ false
    → IsLeast b addresses port
    → IsLeast a addresses port
IsLeast-above a b [] port h least = tt
IsLeast-above a b (ip ∷ rest) port h (first, least) = (
  λ c e. elim (Bool-cases (text_lt (address_key c) (address_key a))) [
    | inr above ↦ above
    | inl below ↦
        let lower = text_lt_below (address_key c) (address_key a) (address_key b) below h in
        let not_lower = first c e in cc
  ],
  IsLeast-above a b rest port h least,
)

-- The chosen address is one of the service's, and the least of them.
abbrev pub IsChosen : SocketAddr → List ScopedIp → ℕ → Type 0
IsChosen least addresses port = Offers least addresses port × IsLeast least addresses port

IsLeast-barren :
    (addresses : List ScopedIp) (port : ℕ) (least : SocketAddr)
    → service_address addresses port ≡ none
    → IsLeast least addresses port
unfolding service_address lesser
IsLeast-barren [] port least e = tt
IsLeast-barren (ip ∷ rest) port least e = (
  λ a found. absurd (service_address-none (ip ∷ rest) port a e (inl found)),
  elim (Option-cases (socket_addr ip port)) [
    | inl missing ↦ IsLeast-barren rest port least (ground arith)
    | inr (first, found) ↦ absurd (service_address-none (ip ∷ rest) port first e (inl found))
  ],
)

-- The first address, where it is not above the choice of the rest.
IsChosen-first :
    (ip : ScopedIp) (rest : List ScopedIp) (port : ℕ) (first : SocketAddr)
    → socket_addr ip port ≡ some first
    → IsLeast first rest port
    → IsChosen first (ip ∷ rest) port
IsChosen-first ip rest port first found least = (
  inl found,
  (
    λ a e. let same : first ≡ a = cc in rw (← same) (text_lt_irreflexive (address_key first)),
    least,
  ),
)

service_address-IsChosen :
    (addresses : List ScopedIp) (port : ℕ) (least : SocketAddr)
    → service_address addresses port ≡ some least
    → IsChosen least addresses port
unfolding service_address
service_address-IsChosen [] port least e = cc
service_address-IsChosen (ip ∷ rest) port least e = elim (Option-cases (socket_addr ip port)) [
  | inl missing ↦
      let (offered, below) =
        service_address-IsChosen rest port least (unfold lesser in ground arith) in
      (inr offered, (λ a found. cc, below))
  | inr (first, found) ↦ elim (Option-cases (service_address rest port)) [
    | inl barren ↦
        let same : first ≡ least = unfold lesser in ground arith in
        subst chosen same
          (IsChosen-first ip rest port first found (IsLeast-barren rest port first barren))
    | inr (second, later) ↦
        let kept : lesser (some first) (some second) ≡ some least =
          sym
            (ap (λ a. lesser a (service_address rest port)) found ∙ ap (lesser (some first)) later)
          ∙ e in
        let (offered, below) = service_address-IsChosen rest port second later in
        elim (lesser-cases first second kept) [
          | inl (same, above) ↦ subst chosen (sym same) (
              IsChosen-first ip rest port first found
                (IsLeast-above first second rest port above below))
          | inr (same, lower) ↦ subst chosen (sym same) (
            inr offered,
            (
              λ a e'.
                  let is_first : first ≡ a = cc in
                  rw (← is_first)
                    (text_lt_asymmetric (address_key second) (address_key first) lower),
              below,
            ),
          )
        ]
  ]
]
  where
    chosen : SocketAddr → Type 0
    chosen l = IsChosen l (ip ∷ rest) port

-- A service with an address that can be used has one that is chosen.
pub service_address-chooses :
    (addresses : List ScopedIp) (port : ℕ) (offered : SocketAddr)
    → Offers offered addresses port
    → (least : SocketAddr) × (service_address addresses port ≡ some least)
      × IsChosen least addresses port
service_address-chooses addresses port offered h =
    elim (Option-cases (service_address addresses port)) [
      | inl missing ↦ absurd (service_address-none addresses port offered missing h)
      | inr (least, e) ↦ (least, e, service_address-IsChosen addresses port least e)
    ]
