-- ===== src/Entity/Valid.antt =====
-- The invariant of the knowledge graph of entity/entity.go.
use Prim.Native.String.{String}
use text.Mathlib.TextEquality.{eq_iff}
use text.Mathlib.Text.{◌==◌ as str_eq}
use turbograph.Prelude.{
  ◌≡◌, refl, ◌∙◌, inl, inr, true, false, List, [], some, arith, Bool-cases, Option-cases,
}
use turbograph.Prelude.Keys.{string_key, pair_key}
use turbograph.Prelude.Assoc.{lookup, insert, has, IsMap, insert-IsMap, lookup-insert}
use turbograph.Entity.{
  TextOps, Entity, Relation, RelationKey, Graph, put, adjust, fresh, fill, norm, ensure, is_blank,
}

-- An edge joins two different nodes of the graph, is stored under its own endpoints, and is stored
-- once: the endpoints are in order.
pub record IsAnchored (t : TextOps) (entities : List (String × Entity)) (k : RelationKey)
    (r : Relation) : Type 0 where
  pub source : r.source ≡ k.0
  pub target : r.target ≡ k.1
  pub ordered : t.before k.1 k.0 ≡ false
  pub distinct : str_eq k.0 k.1 ≡ false
  pub from : has k.0 entities ≡ true
  pub to : has k.1 entities ≡ true

-- A node is stored under its own name, which is not blank, and has a set of descriptions.
pub record IsNode (seen : List (String × List String)) (n : String) (e : Entity) : Type 0 where
  pub named : e.name ≡ n
  pub visible : is_blank n ≡ false
  pub described : has n seen ≡ true

pub record IsValid (t : TextOps) (g : Graph) : Type 0 where
  pub map : IsMap g.entities
  pub nodes : (n : String) (e : Entity) → lookup n g.entities ≡ some e → IsNode g.desc_seen n e
  pub edges :
      (k : RelationKey) (r : Relation) → lookup k g.relations ≡ some r → IsAnchored t g.entities k r

-- The order of strings is total and does not hold both ways.
abbrev pub IsOrder : TextOps → Type 0
IsOrder t = (a b : String) → t.before a b ≡ true → t.before b a ≡ false

module _ (t : TextOps) where
  put-IsValid :
      (n : String) (e : Entity) (g : Graph)
      → IsValid t g
      → e.name ≡ n
      → is_blank n ≡ false
      → has n g.desc_seen ≡ true
      → IsValid t (put n e g)
  unfolding put
  put-IsValid n e g v named visible described = record {
    map = insert-IsMap n e g.entities v.map;
    nodes = λ m f h. ground (arith, lookup-insert n m e g.entities, eq_iff n m, v.nodes m f);
    edges = λ k r h.
        ground
          (arith, lookup-insert n k.0 e g.entities, lookup-insert n k.1 e g.entities, v.edges k r);
  }

  adjust-IsValid :
      (n : String) (f : Entity → Entity) (g : Graph)
      → ((e : Entity) → (f e).name ≡ e.name)
      → IsValid t g
      → IsValid t (adjust n f g)
  unfolding adjust
  adjust-IsValid n f g same v = elim (Option-cases (lookup n g.entities)) [
    | inl missing ↦ rw (missing, adjust) v
    | inr (e, found) ↦
        let node = v.nodes n e found in
        rw (found, adjust)
          (put-IsValid n (f e) g v (same e ∙ node.named) node.visible node.described)
  ]

  -- what every step of Add keeps: the invariant, and the nodes that are there
  pub record Keeps (g g' : Graph) : Type 0 where
    pub valid : IsValid t g → IsValid t g'
    pub grown : (m : String) → has m g.entities ≡ true → has m g'.entities ≡ true

  pub Keeps-refl : (g : Graph) → Keeps g g
  Keeps-refl g = record { valid = λ v. v; grown = λ m h. h }

  pub Keeps-trans : {a b c : Graph} → Keeps a b → Keeps b c → Keeps a c
  Keeps-trans p q = record {
    valid = λ v. q.valid (p.valid v);
    grown = λ m h. q.grown m (p.grown m h);
  }

  has-put :
      (n m : String) (e : Entity) (g : Graph)
      → has m g.entities ≡ true
      → has m (put n e g).entities ≡ true
  unfolding put
  has-put n m e g h = ground (arith, lookup-insert n m e g.entities)

  pub adjust-Keeps :
      (n : String) (f : Entity → Entity) (g : Graph)
      → ((e : Entity) → (f e).name ≡ e.name)
      → Keeps g (adjust n f g)
  unfolding adjust
  adjust-Keeps n f g same = record {
    valid = adjust-IsValid n f g same;
    grown = λ m h. elim (Option-cases (lookup n g.entities)) [
      | inl missing ↦ rw (missing, adjust) h
      | inr (e, found) ↦ rw (found, adjust) (has-put n m (f e) g h)
    ];
  }

  fresh-IsValid :
      (n : String) (e : Entity) (g : Graph)
      → e.name ≡ n
      → is_blank n ≡ false
      → IsValid t g
      → IsValid t
          (record g { entities = insert n e g.entities; desc_seen = insert n [] g.desc_seen })
  fresh-IsValid n e g named visible v = record {
    map = insert-IsMap n e g.entities v.map;
    nodes = λ m f h. ground (
      arith,
      lookup-insert n m e g.entities,
      lookup-insert {V = List String} n m [] g.desc_seen,
      eq_iff n m,
      v.nodes m f,
    );
    edges = λ k r h.
        ground
          (arith, lookup-insert n k.0 e g.entities, lookup-insert n k.1 e g.entities, v.edges k r);
  }

  pub describe_seen-IsValid :
      (n : String) (ds : List String) (g : Graph)
      → IsValid t g
      → IsValid t (record g { desc_seen = insert n ds g.desc_seen })
  describe_seen-IsValid n ds g v = record {
    map = v.map;
    nodes = λ m f h. ground (arith, lookup-insert n m ds g.desc_seen, v.nodes m f);
    edges = λ k r h. ground (arith, v.edges k r);
  }

  pub ensure-Keeps :
      (g : Graph) (name display type : String) → Keeps g (ensure t g name display type).0
  unfolding ensure
  ensure-Keeps g name display type = elim (Bool-cases (is_blank (norm t name))) [
    | inl blank ↦ rw (blank, ensure) (Keeps-refl g)
    | inr visible ↦ elim (Option-cases (lookup (norm t name) g.entities)) [
      | inl missing ↦
          rw (visible, missing, ensure)
            (record {
              valid = fresh-IsValid _ _ g refl visible;
              grown = λ m h. ground (
                arith,
                lookup-insert (norm t name) m
                    (fill (t.trim display) (t.trim type) (fresh (norm t name) (t.trim display)))
                    g.entities,
              );
            })
      | inr (e, found) ↦
          rw (visible, found, ensure)
            (record {
              valid = λ v.
                  let node = v.nodes _ e found in
                  put-IsValid _ _ g v node.named node.visible node.described;
              grown = λ m h. has-put (norm t name) m (fill (t.trim display) (t.trim type) e) g h;
            })
    ]
  ]

  has-put_self : (n : String) (e : Entity) (g : Graph) → has n (put n e g).entities ≡ true
  unfolding put
  has-put_self n e g = ground (arith, lookup-insert n n e g.entities, eq_iff n n)

  -- the pointer that `ensure` returns is a node of the graph
  pub ensure-has :
      (g : Graph) (name display type n : String)
      → (ensure t g name display type).1 ≡ some n
      → has n (ensure t g name display type).0.entities ≡ true
  unfolding ensure
  ensure-has g name display type n h = elim (Option-cases (lookup (norm t name) g.entities)) [
    | inl missing ↦ ground (
      arith,
      lookup-insert (norm t name) n
          (fill (t.trim display) (t.trim type) (fresh (norm t name) (t.trim display))) g.entities,
      eq_iff (norm t name) n,
    )
    | inr (e, found) ↦
        ground
          (arith, has-put_self n (fill (t.trim display) (t.trim type) e) g, eq_iff (norm t name) n)
  ]
