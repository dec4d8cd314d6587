-- ===== src/Gateway/ListenersSafe.antt =====
-- What setting a listener does to the others.
use network_services_operato.Common.{
  String, ◌≡◌, ◌≢◌, refl, sym, ◌⊎◌, inl, inr, ◌==◌, string_eq, some, List, [], ◌∷◌, map, All,
  Distinct, str_eq_iff, Bool-cases, if◌then◌else◌, arith,
}
use network_services_operato.Gateway.Listeners.{Listener, set_listener, get_listener_by_name}

abbrev pub names : List Listener → List String
names = map (λ l. l.name)

-- A name that is none of the listeners' nor the new one's is none of the result's.
set_listener-apart :
    (name : String) (ls : List Listener) (new : Listener)
    → name ≢ new.name
    → All (λ n. name ≢ n) (names ls)
    → All (λ n. name ≢ n) (names (set_listener ls new))
unfolding set_listener
set_listener-apart name [] new h hs = (h, tt)
set_listener-apart name (l ∷ ls) new h (k, hs) = elim (Bool-cases (l.name == new.name)) [
  | inl e ↦ rw e (h, hs)
  | inr e ↦ rw e (k, set_listener-apart name ls new h hs)
]

pub set_listener-Distinct :
    (ls : List Listener) (new : Listener)
    → Distinct (names ls)
    → Distinct (names (set_listener ls new))
unfolding set_listener
set_listener-Distinct [] new h = (tt, tt)
set_listener-Distinct (l ∷ ls) new (apart, h) = elim (Bool-cases (l.name == new.name)) [
  | inl e ↦ rw e (rw (sym ((str_eq_iff l.name new.name).0 e)) apart, h)
  | inr e ↦ rw e (
    set_listener-apart l.name ls new (λ same. absurd (let t = (str_eq_iff _ _).1 same in cc)) apart,
    set_listener-Distinct ls new h,
  )
]

-- Of what the listeners fulfil, the result's fulfil it too, but for the new one.
module _ {ℓ} (P : Listener → Type ℓ) where
  unnamed :
      (ls : List Listener) (new : Listener)
      → All (λ n. new.name ≢ n) (names ls)
      → All P ls
      → All (λ m. (m ≡ new) ⊎ ((m.name ≢ new.name) × P m)) ls
  unnamed [] new apart hs = tt
  unnamed (l ∷ ls) new (ne, apart) (h, hs) =
      (inr (λ same. ne (sym same), h), unnamed ls new apart hs)

  pub set_listener-others :
      (ls : List Listener) (new : Listener)
      → Distinct (names ls)
      → All P ls
      → All (λ m. (m ≡ new) ⊎ ((m.name ≢ new.name) × P m)) (set_listener ls new)
  unfolding set_listener
  set_listener-others [] new d hs = (inl refl, tt)
  set_listener-others (l ∷ ls) new (apart, d) (h, hs) = elim (Bool-cases (l.name == new.name)) [
    | inl e ↦ rw e (inl refl, unnamed ls new (rw (sym ((str_eq_iff l.name new.name).0 e)) apart) hs)
    | inr e ↦ rw e (
      inr (λ same. absurd (let t = (str_eq_iff l.name new.name).1 same in cc), h),
      set_listener-others ls new d hs,
    )
  ]

-- After a listener is set, the search for a name finds it under its name, and what it found before
-- under any other.
pub get_listener_by_name-set_listener :
    (ls : List Listener) (new : Listener) (name : String)
    → get_listener_by_name (set_listener ls new) name
      ≡ (if new.name == name then some new else get_listener_by_name ls name)
unfolding get_listener_by_name set_listener
get_listener_by_name-set_listener [] new name = refl
get_listener_by_name-set_listener (l ∷ ls) new name = ground (
  arith,
  str_eq_iff l.name new.name,
  str_eq_iff l.name name,
  str_eq_iff new.name name,
  get_listener_by_name-set_listener ls new name,
)
