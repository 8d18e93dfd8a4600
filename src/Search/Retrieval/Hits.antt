-- ===== src/Search/Retrieval/Hits.antt =====
-- usecases.py: the hits that a page of candidates gives.
use app_common.Common.{
  String, true, Option, none, some, List, [], ◌∷◌, ◌≡◌, refl, ap, sym, ◌∙◌, subst, inl, inr, eq_iff,
  Bool-cases,
}
use app_common.Common.Members.{In}
use app_common.Layer.Services.{Try, good, bad}
use app_common.Search.Filters.{Json, Atom, atom, items}
use app_common.Search.Schemas.{SearchHit}
use app_common.Search.Retrieval.{Candidate, is_scope, text_of, hit_with, hit_of, with_hit, hits_of}

is_scope-text : (scope : String) (o : Option String) → is_scope scope o ≡ true → o ≡ some scope
is_scope-text scope none h = absurd (cc)
is_scope-text scope (some s) h = ap some ((eq_iff s scope).0 h)

module _ {N : Type 0} where
  -- The value of an entry that is a text.
  abbrev pub EntryIs : Option (Json N) → String → Type 0
  EntryIs o t = o ≡ some (atom (Atom.text t))

  -- A hit stands for a candidate of the scope with its ids and its score.
  pub record StandsFor (scope : String) (h : SearchHit N) (c : Candidate N) : Type 0 where
    pub scope_id : EntryIs c.scope_id scope
    pub source_id : EntryIs c.source_id h.source_id
    pub item_id : EntryIs c.item_id h.item_id
    pub score : h.score ≡ c.score

  text_of-entry : (o : Option (Json N)) (t : String) → text_of o ≡ some t → EntryIs o t
  text_of-entry none t h = absurd (cc)
  text_of-entry (some (items xs)) t h = absurd (cc)
  text_of-entry (some (atom (Atom.text s))) t h = cc
  text_of-entry (some (atom (Atom.number n))) t h = absurd (cc)
  text_of-entry (some (atom (Atom.flag b))) t h = absurd (cc)
  text_of-entry (some (atom (Atom.opaque j))) t h = absurd (cc)

  hit_with-StandsFor :
      (scope : String) (c : Candidate N) (s i : Option String) (m : Try String) (h : SearchHit N)
      → EntryIs c.scope_id scope
      → text_of c.source_id ≡ s
      → text_of c.item_id ≡ i
      → hit_with c s i m ≡ good (some h)
      → StandsFor scope h c
  hit_with-StandsFor scope c (some s) (some i) (good m) h own es ei made =
      let same : ◌≡◌ {A = SearchHit N}
          (record { source_id = s; item_id = i; score = c.score; index_metadata = m }) h =
        cc in
      record {
        scope_id = own;
        source_id =
            text_of-entry c.source_id h.source_id
              (es ∙ ap (λ (x : SearchHit N). some x.source_id) same);
        item_id =
            text_of-entry c.item_id h.item_id (ei ∙ ap (λ (x : SearchHit N). some x.item_id) same);
        score = ap (λ (x : SearchHit N). x.score) (sym same);
      }
  hit_with-StandsFor scope c (some s) (some i) (bad x) h own es ei made = absurd (cc)
  hit_with-StandsFor scope c (some s) none m h own es ei made = absurd (cc)
  hit_with-StandsFor scope c none i m h own es ei made = absurd (cc)

  hit_of-StandsFor :
      (scope : String) (c : Candidate N) (h : SearchHit N)
      → hit_of scope c ≡ good (some h)
      → StandsFor scope h c
  unfolding hit_of
  hit_of-StandsFor scope c h made = elim (Bool-cases (is_scope scope (text_of c.scope_id))) [
    | inl own ↦
        hit_with-StandsFor scope c (text_of c.source_id) (text_of c.item_id) c.index_metadata h
          (text_of-entry c.scope_id scope (is_scope-text scope (text_of c.scope_id) own)) refl refl
          (rw own at made)
    | inr foreign ↦
        let never : ◌≡◌ {A = Try (Option (SearchHit N))} (good none) (good (some h)) =
          rw foreign at made in
        absurd (cc)
  ]

  abbrev Stands : String → SearchHit N → List (Candidate N) → Type 0
  Stands scope h cs = (c : Candidate N) × In c cs × StandsFor scope h c

  with_hit-Stands :
      (scope : String) (c : Candidate N) (cs : List (Candidate N))
      (first : Try (Option (SearchHit N))) (rest : Try (List (SearchHit N)))
      (hits : List (SearchHit N)) (h : SearchHit N)
      → hit_of scope c ≡ first
      → ((later : List (SearchHit N)) → rest ≡ good later → In h later → Stands scope h cs)
      → with_hit first rest ≡ good hits
      → In h hits
      → Stands scope h (c ∷ cs)
  with_hit-Stands scope c cs (bad x) rest hits h e more made there = absurd (cc)
  with_hit-Stands scope c cs (good none) (bad x) hits h e more made there = absurd (cc)
  with_hit-Stands scope c cs (good (some g)) (bad x) hits h e more made there = absurd (cc)
  with_hit-Stands scope c cs (good none) (good hs) hits h e more made there =
      let same : hits ≡ hs = cc in
      let (d, in_rest, stands) = more hs refl (subst (In h) same there) in (d, inr in_rest, stands)
  with_hit-Stands scope c cs (good (some g)) (good hs) hits h e more made there =
      let same : hits ≡ g ∷ hs = cc in
      elim (subst (In h) same there) [
        | inl here ↦ (c, inl refl, hit_of-StandsFor scope c h (e ∙ ap (λ x. good (some x)) here))
        | inr later ↦ let (d, in_rest, stands) = more hs refl later in (d, inr in_rest, stands)
      ]

  -- A hit of a page stands for one of its candidates.
  pub hits_of-Stands :
      (scope : String) (cs : List (Candidate N)) (hits : List (SearchHit N)) (h : SearchHit N)
      → hits_of scope cs ≡ good hits
      → In h hits
      → (c : Candidate N) × In c cs × StandsFor scope h c
  unfolding hits_of
  hits_of-Stands scope [] hits h read there =
      let same : hits ≡ [] = cc in absurd (subst (In h) same there)
  hits_of-Stands scope (c ∷ cs) hits h read there =
      with_hit-Stands scope c cs (hit_of scope c) (hits_of scope cs) hits h refl
        (λ later. hits_of-Stands scope cs later h) read there
