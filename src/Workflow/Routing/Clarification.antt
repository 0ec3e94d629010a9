-- ===== src/Workflow/Routing/Clarification.antt =====
-- `route_after_completeness` of src/infrastructure/orchestration/langgraph/routing.py: when the user
-- is asked and when not.
use topo_forge_ai.Workflow.State.{State}
use topo_forge_ai.Workflow.Routing.Decisions.{held}
use topo_forge_ai.Workflow.Routing.{answered_ids, outstanding, State, route_after_completeness}
use topo_forge_ai.Value.{
  null, text, list, num, Value, Fields, lookup_field, among, bool, dict, scalar_eq, truthy, num,
  text, list, iterate, PyError, nil,
}
use topo_forge_ai.Prelude.{
  ◌≡◌, some, none, [], true, false, ok, ◌∷◌, List, Bool, filter, any, arith, ◌&&◌, not, inl, inr,
  Result-cases, Result, String, if◌then◌else◌, ◌>>=◌, nonempty, refl, raise, ◌≢◌,
}

-- The answers hold one to the question with this id.
abbrev pub answers_id : Value → Value → Bool
answers_id id (dict fs) = scalar_eq (held fs "question_id") id
answers_id id _ = false

-- What `question.get("required", True)` gives.
abbrev required_of : Fields → Value
required_of fs = elim (lookup_field "required" fs) [ none ↦ bool true | some v ↦ v ]

-- A question that is a dictionary, required and unanswered.
abbrev pub is_open : List Value → Value → Bool
is_open answers (dict fs) = truthy (required_of fs) && not (any (answers_id (held fs "id")) answers)
is_open answers _ = false

among-answered_ids :
    (id : Value) (answers ids : List Value)
    → answered_ids answers ≡ ok ids
    → among id ids ≡ any (answers_id id) answers
unfolding answered_ids
among-answered_ids id [] ids h = ground arith
among-answered_ids id (dict fs ∷ rest) ids h = elim (Result-cases (answered_ids rest)) [
  | inl (js, e) ↦ ground (arith, among-answered_ids id rest js e)
  | inr (x, fails) ↦ ground arith
]
among-answered_ids id (null ∷ rest) ids h = among-answered_ids id rest ids h
among-answered_ids id (bool b ∷ rest) ids h = among-answered_ids id rest ids h
among-answered_ids id (num n ∷ rest) ids h = among-answered_ids id rest ids h
among-answered_ids id (text t ∷ rest) ids h = among-answered_ids id rest ids h
among-answered_ids id (list vs ∷ rest) ids h = among-answered_ids id rest ids h

outstanding-is_open :
    (answers ids qs left : List Value)
    → answered_ids answers ≡ ok ids
    → outstanding ids qs ≡ ok left
    → left ≡ filter (is_open answers) qs
unfolding outstanding
outstanding-is_open answers ids [] left h o = ground arith
outstanding-is_open answers ids (dict fs ∷ rest) left h o =
    elim (Result-cases (outstanding ids rest)) [
      | inl (others, e) ↦ ground (
        arith,
        outstanding-is_open answers ids rest others h e,
        among-answered_ids (held fs "id") answers ids h,
      )
      | inr (x, fails) ↦ ground arith
    ]
outstanding-is_open answers ids (null ∷ rest) left h o =
    outstanding-is_open answers ids rest left h o
outstanding-is_open answers ids (bool b ∷ rest) left h o =
    outstanding-is_open answers ids rest left h o
outstanding-is_open answers ids (num n ∷ rest) left h o =
    outstanding-is_open answers ids rest left h o
outstanding-is_open answers ids (text t ∷ rest) left h o =
    outstanding-is_open answers ids rest left h o
outstanding-is_open answers ids (list vs ∷ rest) left h o =
    outstanding-is_open answers ids rest left h o

-- What `state.get(key, [])` gives.
abbrev pub held_list : State → String → Value
held_list s k = elim (lookup_field k s) [ none ↦ list nil | some v ↦ v ]

-- The lists that the state holds, and the questions that are still open.
pub record IsAsked (s : State) : Type 0 where
  pub answers : List Value
  pub answers_listed : iterate (held_list s "clarification_answers") ≡ ok answers
  pub questions : List Value
  pub questions_listed : iterate (held_list s "clarification_questions") ≡ ok questions
  pub clean : truthy (held s "errors") ≡ false

abbrev pub still_open : {s : State} → IsAsked s → List Value
still_open a = filter (is_open a.answers) a.questions

abbrev verdict : List Value → String
verdict left = if nonempty left then "clarify" else "enrich"

decided :
    (errors : Bool) (answers questions : Result PyError (List Value)) (w : String)
    → (if errors
        then ok "fail"
        else (answers >>= λ entries. answered_ids entries >>= λ ids.
            questions >>= λ asked. outstanding ids asked >>= λ left. ok (verdict left)))
      ≡ ok w
    → w ≢ "fail"
    → (entries asked : List Value) × (errors ≡ false)
      × (answers ≡ ok entries)
      × (questions ≡ ok asked)
      × (w ≡ verdict (filter (is_open entries) asked))
decided true answers questions w h n = absurd (n (ground arith))
decided false (raise x) questions w h n = cc
decided false (ok entries) questions w h n = elim (Result-cases (answered_ids entries)) [
  | inr (x, fails) ↦ absurd (ground arith)
  | inl (ids, e) ↦ elim (Result-cases questions) [
    | inr (x, fails) ↦ absurd (ground arith)
    | inl (asked, q) ↦ elim (Result-cases (outstanding ids asked)) [
      | inr (x, fails) ↦ absurd (ground arith)
      | inl (left, o) ↦ (
        entries,
        asked,
        refl,
        refl,
        q,
        ground (arith, outstanding-is_open entries ids asked left e o),
      )
    ]
  ]
]

-- Where `route_after_completeness` does not fail, the state records no errors, and the user is asked
-- exactly when some question that is a dictionary is required and has no answer with its id.
pub completeness-still_open :
    (s : State) (w : String)
    → route_after_completeness s ≡ ok w
    → w ≢ "fail"
    → (a : IsAsked s) × (w ≡ (if nonempty (still_open a) then "clarify" else "enrich"))
unfolding route_after_completeness
completeness-still_open s w h n =
    let (entries, asked, clean, answers, questions, e) =
      decided (truthy (held s "errors")) (iterate (held_list s "clarification_answers"))
        (iterate (held_list s "clarification_questions")) w h n in
    (
      record {
        answers = entries;
        answers_listed = answers;
        questions = asked;
        questions_listed = questions;
        clean = clean;
      },
      e,
    )
