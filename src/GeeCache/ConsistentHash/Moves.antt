-- ===== src/GeeCache/ConsistentHash/Moves.antt =====
-- What Add does to the ring, and which keys change their node: only to an added one.
use days_golang_master.Base.{
  ℕ, zero, suc, ◌+◌, ◌*◌, ◌≤◌, ◌<◌, ◌≡◌, refl, ap, sym, ◌∙◌, subst, ◌⊎◌, inl, inr, Text, Option,
  some, List, [], ◌∷◌, ◌++◌, done, length, arith, Has, Has-append, Has-append_left,
  Has-append_right, ℕ_discrete, length-append,
}
use days_golang_master.Base.Search.{
  IsSorted, sort_ints-IsSorted, Has-sort_ints, Has-of_sort_ints, length-sort_ints,
}
use days_golang_master.Base.Table
use days_golang_master.Base.Table.{Table}
use days_golang_master.GeeCache.ConsistentHash
use days_golang_master.GeeCache.ConsistentHash.{
  Ring, point, add_replicas, add_nodes, add, owner, get,
}
use days_golang_master.GeeCache.ConsistentHash.Successor.{
  IsSuccessor, IsSuccessor-unique, IsSuccessor-restrict, get-IsSuccessor,
}

-- The nodes that points of the ring lead to.
abbrev pub Owned : List ℕ → Table ℕ Text → (Text → Type 0) → Type 0
Owned keys t P =
    (p : ℕ) → Has p keys → (node : Text) × (Table.get ℕ_discrete p t ≡ some node) × P node

-- How the ring grows when nodes are added: points stay, and each point either keeps its node or
-- leads to an added one, as each new point does.
pub record Grown (nodes : List Text) (m m' : Ring) : Type 0 where
  pub hash : m'.hash ≡ m.hash
  pub replicas : m'.replicas ≡ m.replicas
  pub stays : (p : ℕ) → Has p m.keys → Has p m'.keys
  pub fresh :
      (p : ℕ)
      → Has p m'.keys
      → Has p m.keys
        ⊎ ((node : Text) × Has node nodes × (Table.get ℕ_discrete p m'.hash_map ≡ some node))
  pub nodes_of :
      (p : ℕ)
      → (Table.get ℕ_discrete p m'.hash_map ≡ Table.get ℕ_discrete p m.hash_map)
        ⊎ ((node : Text) × Has node nodes × (Table.get ℕ_discrete p m'.hash_map ≡ some node))
  pub longer : length m.keys ≤ length m'.keys

Grown-refl : (nodes : List Text) (m : Ring) → Grown nodes m m
Grown-refl nodes m = record {
  hash = refl;
  replicas = refl;
  stays = λ p h. h;
  fresh = λ p h. inl h;
  nodes_of = λ p. inl refl;
  longer = omega arith;
}

-- One added point.
Grown-point :
    (key : Text) (i : ℕ) (m : Ring)
    → Grown (key ∷ []) m (record m {
      keys = m.keys ++ point m key i ∷ [];
      hash_map = Table.put ℕ_discrete (point m key i) key m.hash_map;
    })
Grown-point key i m = record {
  hash = refl;
  replicas = refl;
  stays = λ p h. Has-append_left p m.keys (point m key i ∷ []) h;
  fresh = λ p h. elim (Has-append p m.keys (point m key i ∷ []) h) [
    | inl old ↦ inl old
    | inr (inl e) ↦ inr (
      key,
      inl refl,
      Table.get-put ℕ_discrete p (point m key i) key m.hash_map ∙ ground (arith, e),
    )
    | inr (inr none_left) ↦ elim none_left [ ]
  ];
  nodes_of = λ p. elim (ℕ_discrete (point m key i) p) [
    | yes e ↦ inr (
      key,
      inl refl,
      Table.get-put ℕ_discrete p (point m key i) key m.hash_map ∙ ground (arith, e),
    )
    | no n ↦ inl (Table.get-put ℕ_discrete p (point m key i) key m.hash_map ∙ ground (arith, n))
  ];
  longer = omega (arith, length-append m.keys (point m key i ∷ []));
}

-- Growth in two steps.
Grown-trans :
    (xs ys nodes : List Text) (m n o : Ring)
    → ((x : Text) → Has x xs → Has x nodes)
    → ((x : Text) → Has x ys → Has x nodes)
    → Grown xs m n
    → Grown ys n o
    → Grown nodes m o
Grown-trans xs ys nodes m n o sub_x sub_y g h = record {
  hash = h.hash ∙ g.hash;
  replicas = h.replicas ∙ g.replicas;
  stays = λ p k. h.stays p (g.stays p k);
  fresh = λ p k. elim (h.fresh p k) [
    | inr (node, listed, e) ↦ inr (node, sub_y node listed, e)
    | inl old ↦ elim (g.fresh p old) [
      | inl older ↦ inl older
      | inr (node, listed, e) ↦ elim (h.nodes_of p) [
        | inl same ↦ inr (node, sub_x node listed, same ∙ e)
        | inr (node', listed', e') ↦ inr (node', sub_y node' listed', e')
      ]
    ]
  ];
  nodes_of = λ p. elim (h.nodes_of p) [
    | inr (node, listed, e) ↦ inr (node, sub_y node listed, e)
    | inl same ↦ elim (g.nodes_of p) [
      | inl same' ↦ inl (same ∙ same')
      | inr (node, listed, e) ↦ inr (node, sub_x node listed, same ∙ e)
    ]
  ];
  longer = omega (arith, g.longer, h.longer);
}

add_replicas-Grown :
    (left i : ℕ) (key : Text) (m : Ring) → Grown (key ∷ []) m (add_replicas left i key m)
unfolding add_replicas
add_replicas-Grown zero i key m = Grown-refl (key ∷ []) m
add_replicas-Grown (suc left) i key m =
    Grown-trans (key ∷ []) (key ∷ []) (key ∷ []) m _ _ (λ x h. h) (λ x h. h) (Grown-point key i m)
      (add_replicas-Grown left (suc i) key _)

add_nodes-Grown : (nodes : List Text) (m : Ring) → Grown nodes m (add_nodes nodes m)
unfolding add_nodes
add_nodes-Grown [] m = Grown-refl [] m
add_nodes-Grown (key ∷ rest) m =
    Grown-trans (key ∷ []) rest (key ∷ rest) m (add_replicas m.replicas 0 key m) _
      (λ x h. elim h [ inl e ↦ inl e | inr n ↦ elim n [ ] ]) (λ x h. inr h)
      (add_replicas-Grown m.replicas 0 key m)
      (add_nodes-Grown rest (add_replicas m.replicas 0 key m))

pub add-Grown : (nodes : List Text) (m : Ring) → Grown nodes m (add nodes m)
unfolding add
add-Grown nodes m =
    let g = add_nodes-Grown nodes m in
    record {
      hash = g.hash;
      replicas = g.replicas;
      stays = λ p h. Has-sort_ints p (add_nodes nodes m).keys (g.stays p h);
      fresh = λ p h. g.fresh p (Has-of_sort_ints p (add_nodes nodes m).keys h);
      nodes_of = g.nodes_of;
      longer = omega (arith, g.longer, length-sort_ints (add_nodes nodes m).keys);
    }

-- The invariant of the ring: its points are sorted, and each leads to a node that was added.
pub record IsValid (nodes : List Text) (m : Ring) : Type 0 where
  pub sorted : IsSorted m.keys
  pub owned : Owned m.keys m.hash_map (λ node. Has node nodes)

pub new-IsValid :
    (checksum : Text → ℕ) (replicas : ℕ) (fn : Option (Text → ℕ))
    → IsValid [] (ConsistentHash.new checksum replicas fn)
unfolding ConsistentHash.new
new-IsValid checksum replicas fn = record { sorted = tt; owned = λ p h. elim h [ ] }

-- Add keeps the invariant, with the new nodes among those that may own points.
pub add-IsValid :
    (old nodes : List Text) (m : Ring) → IsValid old m → IsValid (nodes ++ old) (add nodes m)
add-IsValid old nodes m v =
    let g = add-Grown nodes m in
    record {
      sorted = add-sorted;
      owned = λ p h. elim (g.fresh p h) [
        | inr (node, listed, e) ↦ (node, e, Has-append_left node nodes old listed)
        | inl before ↦
            let (node, e, listed) = v.owned p before in
            elim (g.nodes_of p) [
              | inl same ↦ (node, same ∙ e, Has-append_right node nodes old listed)
              | inr (node', listed', e') ↦ (node', e', Has-append_left node' nodes old listed')
            ]
      ];
    }
  where
    add-sorted : IsSorted (add nodes m).keys
    add-sorted = unfold add in sort_ints-IsSorted (add_nodes nodes m).keys

owner_of_get :
    (t : Table ℕ Text) (p : ℕ) (node : Text)
    → Table.get ℕ_discrete p t ≡ some node
    → owner t p ≡ node
owner_of_get t p node e = ground (arith, e)

-- On a ring that is not empty Get returns a node that was added.
pub get-Has :
    (nodes : List Text) (key : Text) (m : Ring)
    → IsValid nodes m
    → 0 < length m.keys
    → (node : Text) × (get key m ≡ done node) × Has node nodes
get-Has nodes key m v some_key =
    let (p, s, run) = get-IsSuccessor key m v.sorted some_key in
    let (node, e, listed) = v.owned p s.listed in
    (node, run ∙ ap done (owner_of_get m.hash_map p node e), listed)

-- Adding nodes moves a key only to one of the added nodes: every other key stays where it was.
pub get-add_moves :
    (old nodes : List Text) (key : Text) (m : Ring)
    → IsValid old m
    → 0 < length m.keys
    → (before after : Text) × (get key m ≡ done before)
      × (get key (add nodes m) ≡ done after)
      × ((after ≡ before) ⊎ Has after nodes)
get-add_moves old nodes key m v some_key =
    let g = add-Grown nodes m in
    let (p, s, run) = get-IsSuccessor key m v.sorted some_key in
    let (q, t, run') =
      get-IsSuccessor key (add nodes m) (add-IsValid old nodes m v).sorted
        (omega (arith, some_key, g.longer)) in
    let t' : IsSuccessor (m.hash key) (add nodes m).keys q =
      subst (λ f. IsSuccessor (f key) (add nodes m).keys q) g.hash t in
    (
      owner m.hash_map p,
      owner (add nodes m).hash_map q,
      run,
      run',
      elim (g.fresh q t'.listed) [
        | inr (node, listed, e) ↦
            inr
              (subst (λ n. Has n nodes) (sym (owner_of_get (add nodes m).hash_map q node e)) listed)
        | inl before ↦
            let same : q ≡ p =
              IsSuccessor-unique (m.hash key) m.keys q p
                (IsSuccessor-restrict (m.hash key) m.keys (add nodes m).keys q g.stays before t')
                s in
            elim (g.nodes_of q) [
              | inr (node, listed, e) ↦ inr (
                  subst (λ n. Has n nodes) (sym (owner_of_get (add nodes m).hash_map q node e))
                    listed)
              | inl kept ↦
                  inl (
                    owner-same (add nodes m).hash_map m.hash_map q kept
                    ∙ ap (owner m.hash_map) same)
            ]
      ],
    )
  where
    owner-same :
        (t u : Table ℕ Text) (r : ℕ)
        → Table.get ℕ_discrete r t ≡ Table.get ℕ_discrete r u
        → owner t r ≡ owner u r
    owner-same t u r e = ground (arith, e)

length-add_replicas :
    (left i : ℕ) (key : Text) (m : Ring)
    → length (add_replicas left i key m).keys ≡ length m.keys + left
unfolding add_replicas
length-add_replicas zero i key m = omega arith
length-add_replicas (suc left) i key m =
    length-add_replicas left (suc i) key _
    ∙ omega (arith, length-append m.keys (point m key i ∷ []))

length-add_nodes :
    (nodes : List Text) (m : Ring)
    → length (add_nodes nodes m).keys ≡ length m.keys + m.replicas * length nodes
unfolding add_nodes
length-add_nodes [] m = omega arith
length-add_nodes (key ∷ rest) m =
    let m' = add_replicas m.replicas 0 key m in
    length-add_nodes rest m'
    ∙ rw (add_replicas-Grown m.replicas 0 key m).replicas
        (omega (arith, length-add_replicas m.replicas 0 key m))

-- Every added node brings as many points as there are replicas.
pub length-add :
    (nodes : List Text) (m : Ring)
    → length (add nodes m).keys ≡ length m.keys + m.replicas * length nodes
unfolding add
length-add nodes m = length-sort_ints (add_nodes nodes m).keys ∙ length-add_nodes nodes m
