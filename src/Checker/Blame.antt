-- ===== src/Checker/Blame.antt =====
-- typescript-checker.ts: what the loop over the errors of a group says of each mutant.
use isep_mutation_levels.Prelude.{
  ◌≡◌, refl, ap, sym, ◌∙◌, String, Bool, false, ◌||◌, List, [], ◌∷◌, ◌++◌, Option, none, some, inl,
  inr, ◌=s=◌, if◌then◌else◌, lookup, lookup-insert, Bool-cases, Option-cases, append_assoc,
  append-nil, arith, eq_iff, All, All-append, All-keep,
}
use isep_mutation_levels.Api.{Mutant}
use isep_mutation_levels.Checker.Graph.{Nodes, get_all_child_references_including_self}
use isep_mutation_levels.Checker.Groups.{node_of}
use isep_mutation_levels.Checker.Related.{
  flat_map, mutants_in, get_mutants_with_reference_to_children_or_self,
  get_mutants_with_reference_to_children_or_self_lem,
}
use isep_mutation_levels.Checker.Suspects.{
  Distinct, has_mutant-add_mutants, Distinct-add_mutants, All-add_mutants,
}
use isep_mutation_levels.Checker.Check.{
  Diagnostic, CheckError, no_corresponding_file, unrelated_file, ok, err, ErrorsMap, Blame,
  has_mutant, push_error, errors_of, blame_related, blame_errors, file_of,
}

-- No entry, or one with at least one error.
abbrev pub as_entry : List Diagnostic → Option (List Diagnostic)
as_entry [] = none
as_entry (e ∷ es) = some (e ∷ es)

as_entry_snoc : (l : List Diagnostic) (e : Diagnostic) → as_entry (l ++ e ∷ []) ≡ some (l ++ e ∷ [])
as_entry_snoc [] e = refl
as_entry_snoc (x ∷ l) e = refl

errors_of-as_entry : (l : List Diagnostic) → errors_of (as_entry l) ≡ l
errors_of-as_entry [] = refl
errors_of-as_entry (x ∷ l) = refl

-- An error that has one related mutant is put down to it.
abbrev pub put_down : List Mutant → String → Diagnostic → List Diagnostic
put_down (m ∷ []) id e = if m.id =s= id then e ∷ [] else []
put_down _ id e = []

-- An error with no or several related mutants makes all of them, or all of the group, suspects.
abbrev pub raises_suspicion : (mutants related : List Mutant) → String → Bool
raises_suspicion mutants [] id = has_mutant id mutants
raises_suspicion mutants (m ∷ []) id = false
raises_suspicion mutants (m ∷ n ∷ rest) id = has_mutant id (m ∷ n ∷ rest)

module _ (P : Mutant → Type 0) where
  All-flat_map :
      (f : String → List Mutant) (names : List String)
      → ((name : String) → All P (f name))
      → All P (flat_map f names)
  All-flat_map f [] each = tt
  All-flat_map f (x ∷ xs) each = All-append P (f x) _ (each x) (All-flat_map f xs each)

  All-related :
      (nodes : Nodes) (mutants : List Mutant) (name : String)
      → All P mutants
      → All P (get_mutants_with_reference_to_children_or_self nodes name mutants)
  All-related nodes mutants name h =
      rw (get_mutants_with_reference_to_children_or_self_lem nodes mutants name) (
        All-flat_map (mutants_in mutants) (get_all_child_references_including_self nodes name)
          λ x. All-keep P (λ m. node_of m =s= x) mutants h)

-- What the loop has found, of each mutant, and of any property of the mutants of the group.
pub record Says (mutants : List Mutant) (before after : Blame) (errors : String → List Diagnostic)
    (suspicious : String → Bool) : Type 1 where
  pub put_down_to :
      (id : String) (l : List Diagnostic)
      → lookup id before.errors_map ≡ as_entry l
      → lookup id after.errors_map ≡ as_entry (l ++ errors id)
  pub suspected :
      (id : String)
      → has_mutant id after.suspects ≡ (has_mutant id before.suspects || suspicious id)
  pub among : (P : Mutant → Type 0) → All P mutants → All P before.suspects → All P after.suspects
  pub distinct : Distinct before.suspects → Distinct after.suspects

lookup-push_error :
    (k id : String) (e : Diagnostic) (errors_map : ErrorsMap) (l : List Diagnostic)
    → lookup id errors_map ≡ as_entry l
    → lookup id (push_error k e errors_map) ≡ as_entry (l ++ (if k =s= id then e ∷ [] else []))
unfolding push_error
lookup-push_error k id e errors_map l h = elim (Bool-cases (k =s= id)) [
  | inl on ↦
      let here : lookup k errors_map ≡ as_entry l =
        ap (λ j. lookup j errors_map) ((eq_iff k id).0 on) ∙ h in
      rw
        (
          lookup-insert id k (errors_of (lookup k errors_map) ++ e ∷ []) errors_map,
          on,
          here,
          errors_of-as_entry l,
        )
        (sym (as_entry_snoc l e))
  | inr off ↦
      rw
        (lookup-insert id k (errors_of (lookup k errors_map) ++ e ∷ []) errors_map, off, append-nil)
        h
]

Says-blame_related :
    (mutants related : List Mutant) (e : Diagnostic) (b : Blame)
    → ((P : Mutant → Type 0) → All P mutants → All P related)
    → Says mutants b
        (blame_related mutants related e b)
        (λ id. put_down related id e)
        (raises_suspicion mutants related)
unfolding blame_related push_error
Says-blame_related mutants [] e b inside = record {
  put_down_to = λ id l h. rw (append-nil l) h;
  suspected = λ id. has_mutant-add_mutants id mutants b.suspects;
  among = λ P hm hs. All-add_mutants P mutants b.suspects hm hs;
  distinct = Distinct-add_mutants mutants b.suspects;
}
Says-blame_related mutants (m ∷ []) e b inside = record {
  put_down_to = λ id l h. lookup-push_error m.id id e b.errors_map l h;
  suspected = λ id. ground arith;
  among = λ P hm hs. hs;
  distinct = λ d. d;
}
Says-blame_related mutants (m ∷ n ∷ rest) e b inside = record {
  put_down_to = λ id l h. rw (append-nil l) h;
  suspected = λ id. has_mutant-add_mutants id (m ∷ n ∷ rest) b.suspects;
  among = λ P hm hs. All-add_mutants P (m ∷ n ∷ rest) b.suspects (inside P hm) hs;
  distinct = Distinct-add_mutants (m ∷ n ∷ rest) b.suspects;
}

module _ (nodes : Nodes) where
  -- Why an error cannot be put down to anything.
  abbrev pub why_bad : Diagnostic → Option CheckError
  why_bad e = elim (file_of e) [
    | none ↦ some (no_corresponding_file e.message_text)
    | some name ↦ elim (lookup name nodes) [
      | none ↦ some (unrelated_file e.message_text name)
      | some _ ↦ none
    ]
  ]

  abbrev pub first_bad : List Diagnostic → Option CheckError
  first_bad [] = none
  first_bad (e ∷ es) = elim (why_bad e) [ none ↦ first_bad es | some x ↦ some x ]

module _ (nodes : Nodes) (mutants : List Mutant) where
  abbrev pub related_to : Diagnostic → List Mutant
  related_to e = elim (file_of e) [
    | none ↦ []
    | some name ↦ get_mutants_with_reference_to_children_or_self nodes name mutants
  ]

  -- The errors of the group that are put down to a mutant.
  abbrev pub put_down_to : List Diagnostic → String → List Diagnostic
  put_down_to [] id = []
  put_down_to (e ∷ es) id = put_down (related_to e) id e ++ put_down_to es id

  abbrev pub is_suspect : List Diagnostic → String → Bool
  is_suspect [] id = false
  is_suspect (e ∷ es) id = raises_suspicion mutants (related_to e) id || is_suspect es id

  All-related_to : (P : Mutant → Type 0) (e : Diagnostic) → All P mutants → All P (related_to e)
  All-related_to P e h = elim (Option-cases (file_of e)) [
    | inl without ↦ rw (without, related_to) tt
    | inr (name, found) ↦ rw (found, related_to) (All-related P nodes mutants name h)
  ]

  -- The loop goes through if no error is bad.
  pub record Looped (errors : List Diagnostic) (b : Blame) : Type 1 where
    pub after : Blame
    pub returns : blame_errors nodes mutants errors b ≡ ok after
    pub says : Says mutants b after (put_down_to errors) (is_suspect errors)

  pub Looped-step :
      (e : Diagnostic) (errors : List Diagnostic) (b : Blame)
      → why_bad nodes e ≡ none
      → blame_errors nodes mutants (e ∷ errors) b
        ≡ blame_errors nodes mutants errors (blame_related mutants (related_to e) e b)
  unfolding blame_errors
  Looped-step e errors b good = elim (Option-cases (file_of e)) [
    | inl without ↦ ground (arith, good, without)
    | inr (name, found) ↦ elim (Option-cases (lookup name nodes)) [
      | inl unrelated ↦ ground (arith, good, found, unrelated)
      | inr (node, known) ↦ ground (arith, found, known)
    ]
  ]

  pub why_bad-first :
      (e : Diagnostic) (errors : List Diagnostic) (b : Blame) (x : CheckError)
      → why_bad nodes e ≡ some x
      → blame_errors nodes mutants (e ∷ errors) b ≡ err x
  unfolding blame_errors
  why_bad-first e errors b x bad = elim (Option-cases (file_of e)) [
    | inl without ↦ ground (arith, bad, without)
    | inr (name, found) ↦ elim (Option-cases (lookup name nodes)) [
      | inl unrelated ↦ ground (arith, bad, found, unrelated)
      | inr (node, known) ↦ ground (arith, bad, found, known)
    ]
  ]

  pub blame_errors-Looped :
      (errors : List Diagnostic) (b : Blame) → first_bad nodes errors ≡ none → Looped errors b
  unfolding blame_errors
  blame_errors-Looped [] b good = record {
    after = b;
    returns = refl;
    says = record {
      put_down_to = λ id l h. rw append-nil h;
      suspected = λ id. ground arith;
      among = λ P hm hs. hs;
      distinct = λ d. d;
    };
  }
  blame_errors-Looped (e ∷ errors) b good =
      let here : why_bad nodes e ≡ none = ground (arith, good) in
      let later : first_bad nodes errors ≡ none = ground (arith, good) in
      let step = Says-blame_related mutants (related_to e) e b (λ P h. All-related_to P e h) in
      let rest = blame_errors-Looped errors (blame_related mutants (related_to e) e b) later in
      record {
        after = rest.after;
        returns = Looped-step e errors b here ∙ rest.returns;
        says = record {
          put_down_to = λ id l h.
              rest.says.put_down_to id (l ++ put_down (related_to e) id e) (step.put_down_to id l h)
              ∙ ap as_entry (append_assoc l (put_down (related_to e) id e) (put_down_to errors id));
          suspected = λ id. ground (arith, rest.says.suspected id, step.suspected id);
          among = λ P hm hs. rest.says.among P hm (step.among P hm hs);
          distinct = λ d. rest.says.distinct (step.distinct d);
        };
      }
