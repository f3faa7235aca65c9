-- ===== src/Graph/Entities/Keys.antt =====
-- The keys of entities: a normalized text with a label.
use docmesh.Prelude.{◌≡◌, ap, ◌∙◌, Bool, true, ◌&&◌, arith}
use docmesh.Text.{Text, text_eq, text_eq_self, eq_of_text_eq}
use docmesh.Dict.{Key}

abbrev pub EntityKey : Type 0
EntityKey = Text × Text

abbrev pub entity_same : EntityKey → EntityKey → Bool
entity_same (a, l) (b, k) = text_eq a b && text_eq l k

pub entity_same_self : (a : EntityKey) → entity_same a a ≡ true
entity_same_self (a, l) = ground (arith, text_eq_self a, text_eq_self l)

pub eq_of_entity_same : (a b : EntityKey) → entity_same a b ≡ true → a ≡ b
eq_of_entity_same (a, l) (b, k) h =
    let texts : a ≡ b = eq_of_text_eq a b (ground arith) in
    let labels : l ≡ k = eq_of_text_eq l k (ground arith) in
    ap (λ x. (x, l)) texts ∙ ap (λ y. (b, y)) labels

instance abbrev pub entity_key : Key EntityKey
entity_key = record {
  same = entity_same;
  same_self = entity_same_self;
  eq_of_same = eq_of_entity_same;
}
