-- ===== src/Extension/Index/Govern.antt =====
-- Which policy the index lets govern a resource
-- (internal/extensionserver/cache/index.go with internal/extensionserver/mutate/tpp.go).
use mathlib.Core.List.{Memᴰ, Permᴰ}
use mathlib.Core.List.Permᴰ
use network_services_operato.Common.{
  String, Bool, true, false, ◌&&◌, ◌≡◌, refl, sym, ◌∙◌, ap, subst, List, [], ◌∷◌, ◌++◌, map, Option,
  none, some, ◌==◌, string_eq, str_eq_iff, if◌then◌else◌, All, arith, Bool-cases, Option-cases, inl,
  inr, ◌⊎◌, append_assoc, append-nil,
}
use network_services_operato.Common.Map.{lookup, insert, lookup-insert}
use network_services_operato.Extension.Codec.{Codec}
use network_services_operato.Extension.Index.{TppInfo, PolicyIndex}
use network_services_operato.Extension.Index.Objects.{Tpp, Cluster, Namespace}
use network_services_operato.Extension.Index.Build.{
  precedes, insert_tpp, sort_tpps, effective_ns, tpp_info, listed, add_tpps, add_namespace,
  add_namespaces, populate_from_client, build_policy_index_from_client, empty_index,
}
use network_services_operato.Extension.Index.Order.{IsOrdered, sort_tpps-IsOrdered, precedes_irrefl}
use network_services_operato.Extension.Waf.Routes.{targets, first_targeting, tpps_of}

insert_tpp-Perm : (t : Tpp) (us : List Tpp) → Permᴰ (insert_tpp t us) (t ∷ us)
unfolding insert_tpp
insert_tpp-Perm t [] = Permᴰ.refl _
insert_tpp-Perm t (u ∷ us) = elim (Bool-cases (precedes u t)) [
  | inl before ↦
      rw before (Permᴰ.trans (Permᴰ.cons refl (insert_tpp-Perm t us)) (Permᴰ.swap refl refl))
  | inr after ↦ rw after (Permᴰ.refl _)
]

sort_tpps-Perm : (ts : List Tpp) → Permᴰ (sort_tpps ts) ts
unfolding sort_tpps
sort_tpps-Perm [] = Permᴰ.nil
sort_tpps-Perm (t ∷ ts) =
    Permᴰ.trans (insert_tpp-Perm t (sort_tpps ts)) (Permᴰ.cons refl (sort_tpps-Perm ts))

module _ {A : Type 0} where
  All-Perm : (P : A → Type 0) {xs ys : List A} → Permᴰ xs ys → All P xs → All P ys
  All-Perm P Permᴰ.nil h = tt
  All-Perm P (Permᴰ.cons e d) h = (subst P e h.0, All-Perm P d h.1)
  All-Perm P (Permᴰ.swap e f) h = (subst P f h.1.0, (subst P e h.0, h.1.1))
  All-Perm P (Permᴰ.trans d e) h = All-Perm P e (All-Perm P d h)

  Mem-Perm : {a : A} {xs ys : List A} → Permᴰ xs ys → Memᴰ a xs → Memᴰ a ys
  Mem-Perm {a = a} Permᴰ.nil m = elim m [ ]
  Mem-Perm (Permᴰ.cons e d) (Memᴰ.head h) = Memᴰ.head (h ∙ e)
  Mem-Perm (Permᴰ.cons e d) (Memᴰ.tail m) = Memᴰ.tail (Mem-Perm d m)
  Mem-Perm (Permᴰ.swap e f) (Memᴰ.head h) = Memᴰ.tail (Memᴰ.head (h ∙ e))
  Mem-Perm (Permᴰ.swap e f) (Memᴰ.tail (Memᴰ.head h)) = Memᴰ.head (h ∙ f)
  Mem-Perm (Permᴰ.swap e f) (Memᴰ.tail (Memᴰ.tail m)) = Memᴰ.tail (Memᴰ.tail m)
  Mem-Perm (Permᴰ.trans d e) m = Mem-Perm e (Mem-Perm d m)

abbrev in_namespace : String → List Tpp → List Tpp
in_namespace ns [] = []
in_namespace ns (t ∷ ts) =
    if effective_ns t.labels t.namespace == ns then t ∷ in_namespace ns ts else in_namespace ns ts

-- Whether a policy is in the namespace and targets the resource.
abbrev pub applies : String → String → String → Tpp → Bool
applies kind name ns t =
    (effective_ns t.labels t.namespace == ns) && targets kind name t.target_refs

module _ (quote : String → String) (base : List String) where
  infos : List Tpp → List TppInfo
  infos = map (tpp_info quote base)

  listed-add_tpps :
      (ns : String) (ts : List Tpp) (m : List (String × List TppInfo))
      → listed (lookup ns (add_tpps quote base ts m))
        ≡ listed (lookup ns m) ++ infos (in_namespace ns ts)
  unfolding add_tpps infos
  listed-add_tpps ns [] m = sym (append-nil _)
  listed-add_tpps ns (t ∷ ts) m =
      let here = effective_ns t.labels t.namespace in
      let info = tpp_info quote base t in
      let step = listed-add_tpps ns ts (insert here (listed (lookup here m) ++ (info ∷ [])) m) in
      let look = ap listed (lookup-insert here ns (listed (lookup here m) ++ (info ∷ [])) m) in
      elim (Bool-cases (here == ns)) [
        | inl same ↦
            rw (step, look, same)
              (append_assoc (listed (lookup here m)) (info ∷ []) (infos (in_namespace ns ts))
                ∙ ap (λ k. listed (lookup k m) ++ (info ∷ infos (in_namespace ns ts)))
                    ((str_eq_iff here ns).0 same))
        | inr other ↦ rw (step, look, other) refl
      ]

  -- What decides the choice for a resource among the policies `ts`: a chosen policy applies, is one of
  -- them, and no other one that applies precedes it; with no choice, none of them applies.
  abbrev pub IsGoverning : String → String → String → List Tpp → Option TppInfo → Type 0
  IsGoverning kind name ns ts none = All (λ t. applies kind name ns t ≡ false) ts
  IsGoverning kind name ns ts (some info) =
      (w : Tpp) × (info ≡ tpp_info quote base w)
      × (applies kind name ns w ≡ true)
      × Memᴰ w ts
      × All (λ t. (applies kind name ns t ≡ false) ⊎ (precedes t w ≡ false)) ts

  IsGoverning-Perm :
      (kind name ns : String) {ts us : List Tpp}
      → Permᴰ ts us
      → (o : Option TppInfo) → IsGoverning kind name ns ts o
      → IsGoverning kind name ns us o
  IsGoverning-Perm kind name ns p none h = All-Perm _ p h
  IsGoverning-Perm kind name ns p (some info) (w, e, a, m, h) =
      (w, e, a, Mem-Perm p m, All-Perm _ p h)

  skip :
      (kind name ns : String) (t : Tpp) (ts : List Tpp)
      → applies kind name ns t ≡ false
      → (o : Option TppInfo) → IsGoverning kind name ns ts o
      → IsGoverning kind name ns (t ∷ ts) o
  skip kind name ns t ts away none h = (away, h)
  skip kind name ns t ts away (some info) (w, e, a, m, h) = (w, e, a, Memᴰ.tail m, (inl away, h))

  not_earlier :
      (kind name ns : String) (t : Tpp) (ts : List Tpp)
      → All (λ u. precedes u t ≡ false) ts
      → All (λ u. (applies kind name ns u ≡ false) ⊎ (precedes u t ≡ false)) ts
  not_earlier kind name ns t [] h = tt
  not_earlier kind name ns t (u ∷ us) h = (inr h.0, not_earlier kind name ns t us h.1)

  first_targeting-IsGoverning :
      (kind name ns : String) (ts : List Tpp)
      → IsOrdered ts
      → IsGoverning kind name ns ts (first_targeting kind name (infos (in_namespace ns ts)))
  unfolding infos tpp_info
  first_targeting-IsGoverning kind name ns [] h = tt
  first_targeting-IsGoverning kind name ns (t ∷ ts) h =
      let rest = first_targeting-IsGoverning kind name ns ts h.1 in
      elim (Bool-cases (effective_ns t.labels t.namespace == ns)) [
        | inr other ↦ rw other (skip kind name ns t ts (ground arith) _ rest)
        | inl here ↦ elim (Bool-cases (targets kind name t.target_refs)) [
          | inr missed ↦ rw (here, missed) (skip kind name ns t ts (ground arith) _ rest)
          | inl hit ↦
              rw (here, hit)
                (
                  t,
                  refl,
                  ground arith,
                  Memᴰ.head refl,
                  (inr (precedes_irrefl t), not_earlier kind name ns t ts h.0),
                )
        ]
      ]

add_namespaces-tpps :
    (nss : List Namespace) (idx : PolicyIndex) → (add_namespaces nss idx).tpps ≡ idx.tpps
unfolding add_namespaces add_namespace
add_namespaces-tpps [] idx = refl
add_namespaces-tpps (ns ∷ nss) idx = add_namespaces-tpps nss (add_namespace ns idx)

module _ (c : Codec) (cl : Cluster) where
  build-tpps :
      (base : List String) (idx : PolicyIndex) (ts : List Tpp)
      → build_policy_index_from_client cl base ≡ some idx
      → cl.tpps ≡ some ts
      → idx.tpps ≡ add_tpps cl.quote base (sort_tpps ts) []
  unfolding build_policy_index_from_client populate_from_client
  build-tpps base idx ts e et = elim (Option-cases cl.namespaces) [
    | inl failed ↦ absurd (ground arith)
    | inr (nss, found) ↦ elim (Option-cases cl.proxies) [
      | inl failed ↦ absurd (ground arith)
      | inr (ps, listed_ps) ↦
          let made : idx.tpps
              ≡ add_tpps cl.quote base (sort_tpps ts) (add_namespaces nss empty_index).tpps =
            ground arith in
          made ∙ ap (add_tpps cl.quote base (sort_tpps ts)) (add_namespaces-tpps nss empty_index)
    ]
  ]

  tpps_of-listed :
      (idx : PolicyIndex) (ns : String) → tpps_of c idx ns ≡ listed (lookup ns idx.tpps)
  tpps_of-listed idx ns = elim (Option-cases (lookup ns idx.tpps)) [
    | inl absent ↦ ground arith
    | inr (found, present) ↦ ground arith
  ]

  tpps_of-build :
      (base : List String) (idx : PolicyIndex) (ts : List Tpp) (ns : String)
      → build_policy_index_from_client cl base ≡ some idx
      → cl.tpps ≡ some ts
      → tpps_of c idx ns ≡ infos cl.quote base (in_namespace ns (sort_tpps ts))
  tpps_of-build base idx ts ns e et =
      tpps_of-listed idx ns
      ∙ ap (λ m. listed (lookup ns m)) (build-tpps base idx ts e et)
      ∙ listed-add_tpps cl.quote base ns (sort_tpps ts) []
      ∙ (unfold lookup in refl)

  -- If the index is built from the policies `ts`, the policy that it lets govern a resource (a gateway
  -- or a route, by kind and name) of a namespace is made from one of `ts`: one whose namespace is that
  -- namespace, that targets the resource, and that no other such policy precedes in the order by
  -- creation time and name. If it lets none govern, then none of `ts` is in the namespace and targets
  -- the resource.
  pub first_targeting-oldest :
      (base : List String) (idx : PolicyIndex) (ts : List Tpp) (kind name ns : String)
      → build_policy_index_from_client cl base ≡ some idx
      → cl.tpps ≡ some ts
      → IsGoverning cl.quote base kind name ns ts (first_targeting kind name (tpps_of c idx ns))
  first_targeting-oldest base idx ts kind name ns e et = rw (tpps_of-build base idx ts ns e et) (
      IsGoverning-Perm cl.quote base kind name ns (sort_tpps-Perm ts) _ (
        first_targeting-IsGoverning cl.quote base kind name ns (sort_tpps ts)
          (sort_tpps-IsOrdered ts)))
