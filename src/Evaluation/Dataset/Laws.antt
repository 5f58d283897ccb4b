-- ===== src/Evaluation/Dataset/Laws.antt =====
-- What a dataset that `from_mapping` (src/agent_runtime/evaluation/regression.py) accepts is like.
use agent_reliability_runtim.Prelude.{
  String, ◌≡◌, ◌≢◌, refl, ap, ◌∙◌, Bool, true, false, Option, none, some, List, [], ◌∷◌, inl, inr,
  Bool-cases, if◌then◌else◌,
}
use agent_reliability_runtim.Prelude.Result.{ok, raise, value_error, >>=-eq-ok}
use agent_reliability_runtim.Json.{
  Json, null, boolean, int, float, str, arr, obj, Items, nil, cons, Fields, end, field, get,
}
use agent_reliability_runtim.Domain.Retry.{is_blank}
use agent_reliability_runtim.Evaluation.Safety.{is_one_of}
use agent_reliability_runtim.Evaluation.Dataset.{
  RegressionCase, RegressionDataset, named, filled, filled_object, objects, read_case, read_cases,
  from_mapping,
}

-- A case that can be run.
pub record IsCase (c : RegressionCase) : Type 0 where
  pub named : is_blank c.case_id ≡ false
  pub has_input : c.input_payload ≢ end
  pub has_rules : c.rules ≢ []

-- The cases can be run, and none has an identifier of those before it.
abbrev pub AreCases : List String → List RegressionCase → Type 0
AreCases case_ids [] = Unit
AreCases case_ids (c ∷ cs) =
    IsCase c × (is_one_of c.case_id case_ids ≡ false) × AreCases (c.case_id ∷ case_ids) cs

named-blank : (v : Option Json) (s : String) → named v ≡ ok s → is_blank s ≡ false
unfolding named
named-blank none s h = cc
named-blank (some null) s h = cc
named-blank (some (boolean b)) s h = cc
named-blank (some (int n)) s h = cc
named-blank (some (float x)) s h = cc
named-blank (some (arr xs)) s h = cc
named-blank (some (obj d)) s h = cc
named-blank (some (str t)) s h = elim (Bool-cases (is_blank t)) [
  | inl e ↦ absurd (let raised = rw e at h in cc raised)
  | inr e ↦ let same : t ≡ s = cc (rw e at h) in rw (← same) e
]

filled_object-ne : (v : Option Json) (d : Fields) → filled_object v ≡ ok d → d ≢ end
unfolding filled_object
filled_object-ne none d h e = cc
filled_object-ne (some null) d h e = cc
filled_object-ne (some (boolean b)) d h e = cc
filled_object-ne (some (int n)) d h e = cc
filled_object-ne (some (float x)) d h e = cc
filled_object-ne (some (str s)) d h e = cc
filled_object-ne (some (arr xs)) d h e = cc
filled_object-ne (some (obj end)) d h e = cc
filled_object-ne (some (obj (field k v rest))) d h e = cc

objects-ne : (xs : Items) (ds : List Fields) → xs ≢ nil → objects xs ≡ ok ds → ds ≢ []
unfolding objects
objects-ne nil ds some_rules h e = absurd (some_rules refl)
objects-ne (cons (obj d) xs) ds some_rules h e =
    let (rest, _, same) = >>=-eq-ok (objects xs) _ h in cc
objects-ne (cons null xs) ds some_rules h e = cc
objects-ne (cons (boolean b) xs) ds some_rules h e = cc
objects-ne (cons (int n) xs) ds some_rules h e = cc
objects-ne (cons (float x) xs) ds some_rules h e = cc
objects-ne (cons (str s) xs) ds some_rules h e = cc
objects-ne (cons (arr ys) xs) ds some_rules h e = cc

filled-ne : (v : Option Json) (xs : Items) → filled v ≡ ok xs → xs ≢ nil
unfolding filled
filled-ne none xs h e = cc
filled-ne (some null) xs h e = cc
filled-ne (some (boolean b)) xs h e = cc
filled-ne (some (int n)) xs h e = cc
filled-ne (some (float x)) xs h e = cc
filled-ne (some (str s)) xs h e = cc
filled-ne (some (obj d)) xs h e = cc
filled-ne (some (arr nil)) xs h e = cc
filled-ne (some (arr (cons y ys))) xs h e = cc

new_id : (b : Bool) → (if b then raise value_error else ok (tt {0})) ≡ ok tt → b ≡ false
new_id true h = cc
new_id false h = refl

read_case-IsCase :
    (case_ids : List String) (raw : Json) (c : RegressionCase)
    → read_case case_ids raw ≡ ok c
    → IsCase c × (is_one_of c.case_id case_ids ≡ false)
unfolding read_case
read_case-IsCase case_ids null c h = cc
read_case-IsCase case_ids (boolean b) c h = cc
read_case-IsCase case_ids (int n) c h = cc
read_case-IsCase case_ids (float x) c h = cc
read_case-IsCase case_ids (str s) c h = cc
read_case-IsCase case_ids (arr xs) c h = cc
read_case-IsCase case_ids (obj raw) c h =
    let (case_id, id_read, h₁) = >>=-eq-ok (named (get "case_id" raw)) _ h in
    let (_, fresh, h₂) =
      >>=-eq-ok (if is_one_of case_id case_ids then raise value_error else ok tt) _ h₁ in
    let (input_payload, input_read, h₃) = >>=-eq-ok (filled_object (get "input" raw)) _ h₂ in
    let (raw_rules, rules_read, h₄) = >>=-eq-ok (filled (get "rules" raw)) _ h₃ in
    let (rules, objects_read, same) = >>=-eq-ok (objects raw_rules) _ h₄ in
    let e : record { case_id = case_id; input_payload = input_payload; rules = rules } ≡ c = cc in
    rw (← e) (
      record {
        named = named-blank _ case_id id_read;
        has_input = filled_object-ne _ input_payload input_read;
        has_rules = objects-ne raw_rules rules (filled-ne _ raw_rules rules_read) objects_read;
      },
      new_id _ fresh,
    )

read_cases-AreCases :
    (case_ids : List String) (raws : Items) (cs : List RegressionCase)
    → read_cases case_ids raws ≡ ok cs
    → AreCases case_ids cs
unfolding read_cases
read_cases-AreCases case_ids nil [] h = tt
read_cases-AreCases case_ids nil (c ∷ cs) h = cc
read_cases-AreCases case_ids (cons raw raws) cs h =
    let (first, read, h₁) = >>=-eq-ok (read_case case_ids raw) _ h in
    let (rest, read_rest, same) = >>=-eq-ok (read_cases (first.case_id ∷ case_ids) raws) _ h₁ in
    let (good, fresh) = read_case-IsCase case_ids raw first read in
    let e : (first ∷ rest) ≡ cs = cc in
    rw (← e) (good, fresh, read_cases-AreCases (first.case_id ∷ case_ids) raws rest read_rest)

read_cases-ne :
    (case_ids : List String) (raws : Items) → raws ≢ nil → read_cases case_ids raws ≢ ok []
unfolding read_cases
read_cases-ne case_ids nil some_cases h = some_cases refl
read_cases-ne case_ids (cons raw raws) some_cases h =
    let (first, read, h₁) = >>=-eq-ok (read_case case_ids raw) _ h in
    let (rest, read_rest, same) = >>=-eq-ok (read_cases (first.case_id ∷ case_ids) raws) _ h₁ in cc

pub record IsDataset (dataset : RegressionDataset) : Type 0 where
  pub id_named : is_blank dataset.dataset_id ≡ false
  pub version_named : is_blank dataset.version ≡ false
  pub has_cases : dataset.cases ≢ []
  pub cases : AreCases [] dataset.cases

-- A dataset that is accepted has an identifier and a version that are not blank and at least one
-- case; its cases have distinct identifiers that are not blank, an input that is not empty, and at
-- least one rule.
pub from_mapping-IsDataset :
    (value : Fields) (dataset : RegressionDataset)
    → from_mapping value ≡ ok dataset
    → IsDataset dataset
unfolding from_mapping
from_mapping-IsDataset value dataset h =
    let (dataset_id, id_read, h₁) = >>=-eq-ok (named (get "dataset_id" value)) _ h in
    let (version, version_read, h₂) = >>=-eq-ok (named (get "version" value)) _ h₁ in
    let (raw_cases, raws_read, h₃) = >>=-eq-ok (filled (get "cases" value)) _ h₂ in
    let (cases, cases_read, same) = >>=-eq-ok (read_cases [] raw_cases) _ h₃ in
    let e : record { dataset_id = dataset_id; version = version; cases = cases } ≡ dataset = cc in
    rw (← e) (record {
      id_named = named-blank _ dataset_id id_read;
      version_named = named-blank _ version version_read;
      has_cases = λ none_read.
          read_cases-ne [] raw_cases (filled-ne _ raw_cases raws_read)
            (cases_read ∙ ap (λ cs. ok cs) none_read);
      cases = read_cases-AreCases [] raw_cases cases cases_read;
    })
