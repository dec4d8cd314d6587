-- ===== src/Extension/Index/Order.antt =====
-- The order of the policies (internal/extensionserver/cache/index.go).
use network_services_operato.Common.{
  true, false, ◌≡◌, refl, List, [], ◌∷◌, All, arith, Bool-cases, inl, inr,
}
use network_services_operato.Common.Text.{Bytes, codes, bytes_leb}
use network_services_operato.Extension.Index.Objects.{Tpp}
use network_services_operato.Extension.Index.Build.{precedes, insert_tpp, sort_tpps}

bytes_leb_refl : (s : Bytes) → bytes_leb s s ≡ true
bytes_leb_refl [] = refl
bytes_leb_refl (a ∷ s) = ground (arith, bytes_leb_refl s)

pub bytes_leb_total : (s t : Bytes) → bytes_leb s t ≡ false → bytes_leb t s ≡ true
bytes_leb_total [] t h = ground arith
bytes_leb_total (a ∷ s) [] h = refl
bytes_leb_total (a ∷ s) (b ∷ t) h = ground (arith, bytes_leb_total s t)

pub bytes_leb_trans :
    (s t u : Bytes) → bytes_leb s t ≡ true → bytes_leb t u ≡ true → bytes_leb s u ≡ true
bytes_leb_trans [] t u h k = refl
bytes_leb_trans (a ∷ s) [] u h k = ground arith
bytes_leb_trans (a ∷ s) (b ∷ t) [] h k = ground arith
bytes_leb_trans (a ∷ s) (b ∷ t) (d ∷ u) h k = ground (arith, bytes_leb_trans s t u)

pub precedes_irrefl : (t : Tpp) → precedes t t ≡ false
unfolding precedes
precedes_irrefl t = ground (arith, bytes_leb_refl (codes t.name))

precedes_asym : (s t : Tpp) → precedes s t ≡ true → precedes t s ≡ false
unfolding precedes
precedes_asym s t h = ground (arith, bytes_leb_total (codes t.name) (codes s.name))

-- The order that `precedes` leaves open is transitive.
precedes_trans : (s t u : Tpp) → precedes t s ≡ false → precedes u t ≡ false → precedes u s ≡ false
unfolding precedes
precedes_trans s t u h k =
    ground (arith, bytes_leb_trans (codes s.name) (codes t.name) (codes u.name))

-- No policy precedes one that stands before it.
abbrev pub IsOrdered : List Tpp → Type 0
IsOrdered [] = Unit
IsOrdered (t ∷ ts) = All (λ u. precedes u t ≡ false) ts × IsOrdered ts

All-insert_tpp :
    (P : Tpp → Type 0) (t : Tpp) (us : List Tpp) → P t → All P us → All P (insert_tpp t us)
unfolding insert_tpp
All-insert_tpp P t [] p h = (p, h)
All-insert_tpp P t (u ∷ us) p h = elim (Bool-cases (precedes u t)) [
  | inl before ↦ rw before (h.0, All-insert_tpp P t us p h.1)
  | inr after ↦ rw after (p, h)
]

All-precedes_trans :
    (t u : Tpp) (us : List Tpp)
    → precedes u t ≡ false
    → All (λ w. precedes w u ≡ false) us
    → All (λ w. precedes w t ≡ false) us
All-precedes_trans t u [] h hs = tt
All-precedes_trans t u (w ∷ ws) h hs =
    (precedes_trans t u w h hs.0, All-precedes_trans t u ws h hs.1)

insert_tpp-IsOrdered : (t : Tpp) (us : List Tpp) → IsOrdered us → IsOrdered (insert_tpp t us)
unfolding insert_tpp
insert_tpp-IsOrdered t [] h = (tt, tt)
insert_tpp-IsOrdered t (u ∷ us) h = elim (Bool-cases (precedes u t)) [
  | inl before ↦ rw before (
    All-insert_tpp (λ w. precedes w u ≡ false) t us (precedes_asym u t before) h.0,
    insert_tpp-IsOrdered t us h.1,
  )
  | inr after ↦ rw after ((after, All-precedes_trans t u us after h.0), h)
]

pub sort_tpps-IsOrdered : (ts : List Tpp) → IsOrdered (sort_tpps ts)
unfolding sort_tpps
sort_tpps-IsOrdered [] = tt
sort_tpps-IsOrdered (t ∷ ts) = insert_tpp-IsOrdered t (sort_tpps ts) (sort_tpps-IsOrdered ts)
