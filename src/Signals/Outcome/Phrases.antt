-- ===== src/Signals/Outcome/Phrases.antt =====
-- hasGiveUpPattern of internal/signals/outcome.go, by the places of the phrases in the text.
use ca_session_source.Base.{
  ◌≡◌, ◌↔◌, refl, subst, inl, inr, true, false, ◌||◌, List, [], ◌∷◌, ◌++◌, arith, Bool-cases,
}
use ca_session_source.GoText.{Text, codes, contains, to_lower}
use ca_session_source.GoText.Laws.{In, contains_iff}
use ca_session_source.Signals.Outcome.{contains_pattern, has_give_up_pattern}

-- One of the phrases stands in the text.
pub data Mentions (phrases : List Text) (text : Text) : Type 0 where
  mentions :
      (phrase before after : Text)
      → In phrase phrases
      → text ≡ before ++ (phrase ++ after)
      → Mentions phrases text

no_phrase : (text : Text) → Mentions [] text → false ≡ true
no_phrase text (mentions p before after i e) = absurd i

-- One phrase more, where its occurrences and those of the others are found.
module _ (p : Text) (ps : List Text) (text : Text)
    (rest : (contains_pattern ps text ≡ true) ↔ Mentions ps text) where
  later : Mentions ps text → Mentions (p ∷ ps) text
  later (mentions q before after i e) = mentions q before after (inr i) e

  found : (contains p text || contains_pattern ps text) ≡ true → Mentions (p ∷ ps) text
  found h = elim (Bool-cases (contains p text)) [
    | inl hit ↦
        let (before, after, e) = (contains_iff p text).0 hit in mentions p before after (inl refl) e
    | inr miss ↦ later (rest.0 (ground (arith, h, miss)))
  ]

  listed : Mentions (p ∷ ps) text → (contains p text || contains_pattern ps text) ≡ true
  listed (mentions q before after (inl same) e) =
      let hit =
        (contains_iff p text).1
          (before, after, subst (λ r. text ≡ before ++ (r ++ after)) same e) in
      ground (arith, hit)
  listed (mentions q before after (inr i) e) =
      let hit = rest.1 (mentions q before after i e) in ground (arith, hit)

contains_pattern-Mentions :
    (phrases : List Text) (text : Text)
    → (contains_pattern phrases text ≡ true) ↔ Mentions phrases text
unfolding contains_pattern
contains_pattern-Mentions [] text = (λ h. absurd (cc), no_phrase text)
contains_pattern-Mentions (p ∷ ps) text =
    let rest = contains_pattern-Mentions ps text in (found p ps text rest, listed p ps text rest)

-- The text has one of the phrases with which an agent gives up, in letters of either case.
pub record GivesUp (text : Text) : Type 0 where
  pub phrase :
      Mentions
        (codes "i'm unable to"
          ∷ codes "i can't proceed"
          ∷ codes "i don't have access"
          ∷ codes "i cannot proceed"
          ∷ codes "i am unable to"
          ∷ [])
        (to_lower text)

pub has_give_up_pattern-GivesUp : (text : Text) → (has_give_up_pattern text ≡ true) ↔ GivesUp text
unfolding has_give_up_pattern
has_give_up_pattern-GivesUp text =
    let iff = contains_pattern-Mentions _ (to_lower text) in
    (λ h. record { phrase = iff.0 h }, λ g. iff.1 g.phrase)
