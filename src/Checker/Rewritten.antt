-- ===== src/Checker/Rewritten.antt =====
-- typescript-checker/src/fs: what the loops over mutants do to each file.
use mathlib.Core.Option.{some_inj}
use isep_mutation_levels.Prelude.{
  ℕ, ◌≡◌, refl, ap, sym, ◌∙◌, String, Bool, true, false, List, [], ◌∷◌, Option, none, some, inl,
  inr, ◌⊎◌, any, ◌=s=◌, if◌then◌else◌, Bool-cases, Option-cases, arith, eq_iff, and_then,
  and_then-some,
}
use isep_mutation_levels.Api.{Mutant}
use isep_mutation_levels.Differ.Positions.{Text, Location}
use isep_mutation_levels.Instrument.Collector.{codes}
use isep_mutation_levels.Checker.Groups.{node_of}
use isep_mutation_levels.Checker.Files.{
  ScriptFile, FileSystem, source_of, replaced, set_file, change_file, change_all, mutate, mutated,
  reset_mutant, reset_all, mutate_all,
}

abbrev pub touches : String → List Mutant → Bool
touches name ms = any (λ m. node_of m =s= name) ms

-- A file behind a change was there before, and is changed or the same.
abbrev Changed :
    (ScriptFile → Option ScriptFile) → (n name : String) → ScriptFile → ScriptFile → Type 0
Changed f n name before after =
    (((n =s= name) ≡ true) × (f before ≡ some after)) ⊎ (((n =s= name) ≡ false) × (after ≡ before))

Changed-set :
    (f : ScriptFile → Option ScriptFile) (n name : String) (fs : FileSystem) (g g' : ScriptFile)
    → fs n ≡ some g
    → f g ≡ some g'
    → (after : ScriptFile) → set_file n g' fs name ≡ some after
    → (before : ScriptFile) × (fs name ≡ some before) × Changed f n name before after
Changed-set f n name fs g g' there changed after found = elim (Bool-cases (n =s= name)) [
  | inl here ↦
      let same : some g' ≡ some after = ground (arith, here, found) in
      (g, ap fs (sym ((eq_iff n name).0 here)) ∙ there, inl (here, changed ∙ same))
  | inr elsewhere ↦
      let same : fs name ≡ some after = ground (arith, elsewhere, found) in
      (after, same, inr (elsewhere, refl))
]

change_file-Changed :
    (f : ScriptFile → Option ScriptFile) (n : String) (fs fs' : FileSystem)
    → change_file f n fs ≡ some fs'
    → (name : String) (after : ScriptFile) → fs' name ≡ some after
    → (before : ScriptFile) × (fs name ≡ some before) × Changed f n name before after
unfolding change_file
change_file-Changed f n fs fs' h name after found =
    let (g', whole, set) =
      and_then-some (and_then (fs n) f) (λ file. some (set_file n file fs)) h in
    let (g, there, changed) = and_then-some (fs n) f whole in
    let here : set_file n g' fs name ≡ some after = ap (λ s. s name) (some_inj.0 set) ∙ found in
    Changed-set f n name fs g g' there changed after here

-- What there is behind code that no exception has ended.
abbrev pub settled {ℓ} : {A : Type ℓ} → Bool × A → Option A
settled (true, a) = some a
settled (false, a) = none

pub settled-change_all :
    (f : Mutant → ScriptFile → Option ScriptFile) (m : Mutant) (ms : List Mutant) (fs : FileSystem)
    → settled (change_all f (m ∷ ms) fs)
      ≡ and_then (change_file (f m) (node_of m) fs) (λ fs'. settled (change_all f ms fs'))
unfolding change_all
settled-change_all f m ms fs = elim (Option-cases (change_file (f m) (node_of m) fs)) [
  | inl e ↦ rw (e, change_all)
  | inr (fs', e) ↦ rw (e, change_all)
]

reset_mutant_facts :
    (f g : ScriptFile)
    → reset_mutant f ≡ some g
    → (g.original_content ≡ f.original_content)
      × (g.content ≡ f.original_content)
      × (g.source_file ≡ f.source_file)
unfolding reset_mutant
reset_mutant_facts f g h = elim (Bool-cases f.is_watched) [
  | inl on ↦ ground (arith, h, on)
  | inr off ↦ ground (arith, h, off)
]

pub if_some : (b : Bool) (x g : ScriptFile) → (if b then some x else none) ≡ some g → x ≡ g
if_some true x g h = some_inj.0 h
if_some false x g h = cc

pub record WasReset (last : List Mutant) (name : String) (before after : ScriptFile) : Type 0 where
  pub original : after.original_content ≡ before.original_content
  pub source : source_of before ≡ before.original_content → source_of after ≡ after.original_content
  pub content :
      after.content ≡ (if touches name last then before.original_content else before.content)

WasReset-step :
    (m : Mutant) (ms : List Mutant) (name : String) (before mid after : ScriptFile)
    → Changed reset_mutant (node_of m) name before mid
    → WasReset ms name mid after
    → WasReset (m ∷ ms) name before after
WasReset-step m ms name before mid after (inl (here, changed)) w =
    let facts = reset_mutant_facts before mid changed in
    record {
      original = w.original ∙ facts.0;
      source = λ h. w.source (ground (arith, facts, h));
      content = ground (arith, w.content, facts, here);
    }
WasReset-step m ms name before mid after (inr (elsewhere, same)) w = record {
  original = w.original ∙ ap (λ f. f.original_content) same;
  source = λ h. w.source (ap source_of same ∙ h ∙ sym (ap (λ f. f.original_content) same));
  content = ground (arith, w.content, same, elsewhere);
}

pub reset_all-WasReset :
    (last : List Mutant) (fs fs' : FileSystem)
    → settled (reset_all last fs) ≡ some fs'
    → (name : String) (after : ScriptFile) → fs' name ≡ some after
    → (before : ScriptFile) × (fs name ≡ some before) × WasReset last name before after
unfolding reset_all change_all
reset_all-WasReset [] fs fs' h name after found = (
  after,
  ap (λ s. s name) (some_inj.0 h) ∙ found,
  record { original = refl; source = λ k. k; content = refl },
)
reset_all-WasReset (m ∷ ms) fs fs' h name after found =
    let (fs1, first, rest) =
      and_then-some (change_file reset_mutant (node_of m) fs) (λ s. settled (reset_all ms s))
        (sym (settled-change_all (λ _. reset_mutant) m ms fs) ∙ h) in
    let (mid, there, w) = reset_all-WasReset ms fs1 fs' rest name after found in
    let (before, at_first, ch) =
      change_file-Changed reset_mutant (node_of m) fs fs1 first name mid there in
    (before, at_first, WasReset-step m ms name before mid after ch w)

module _ (offsets_of : Text → Location → ℕ × ℕ) where
  -- The text with the last of the mutants that are in the file, or `text`, if there is none.
  abbrev pub text_with : List Mutant → (name : String) → (original text : Text) → Text
  text_with [] name original text = text
  text_with (m ∷ ms) name original text = text_with ms name original (
      if node_of m =s= name
      then replaced offsets_of original (offsets_of original m.location) (codes m.replacement)
      else text)

  pub text_with_untouched :
      (ms : List Mutant) (name : String) (original text : Text)
      → touches name ms ≡ false
      → text_with ms name original text ≡ text
  text_with_untouched [] name original text h = refl
  text_with_untouched (m ∷ ms) name original text h =
      let here : (node_of m =s= name) ≡ false = ground (arith, h) in
      let later : touches name ms ≡ false = ground (arith, h) in
      rw here (text_with_untouched ms name original text later)

  mutate_facts :
      (m : Mutant) (f g : ScriptFile)
      → mutate offsets_of m f ≡ some g
      → (g.original_content ≡ f.original_content)
        × (g.content
            ≡ replaced offsets_of f.original_content
                (offsets_of (source_of f) m.location)
                (codes m.replacement))
        × (g.source_file ≡ some (source_of f))
  unfolding mutate
  mutate_facts m f g h =
      let same = if_some f.is_watched (mutated offsets_of m f) g h in
      (
        sym (ap (λ x. x.original_content) same),
        sym (ap (λ x. x.content) same),
        sym (ap (λ x. x.source_file) same),
      )

  pub record WasMutated (ms : List Mutant) (name : String) (before after : ScriptFile)
      : Type 0 where
    pub original : after.original_content ≡ before.original_content
    pub source :
        source_of before ≡ before.original_content → source_of after ≡ after.original_content
    pub content :
        source_of before ≡ before.original_content
        → after.content ≡ text_with ms name before.original_content before.content

  WasMutated-step :
      (m : Mutant) (ms : List Mutant) (name : String) (before mid after : ScriptFile)
      → Changed (mutate offsets_of m) (node_of m) name before mid
      → WasMutated ms name mid after
      → WasMutated (m ∷ ms) name before after
  WasMutated-step m ms name before mid after (inl (here, changed)) w =
      let facts = mutate_facts m before mid changed in
      let source_mid : source_of before ≡ before.original_content
          → source_of mid ≡ mid.original_content =
        λ h. ground (arith, facts, h) in
      record {
        original = w.original ∙ facts.0;
        source = λ h. w.source (source_mid h);
        content = λ h. w.content (source_mid h) ∙ rw (facts.0, facts.1, here, h) refl;
      }
  WasMutated-step m ms name before mid after (inr (elsewhere, same)) w = record {
    original = w.original ∙ ap (λ f. f.original_content) same;
    source = λ h. w.source (ap source_of same ∙ h ∙ sym (ap (λ f. f.original_content) same));
    content = λ h.
        w.content (ap source_of same ∙ h ∙ sym (ap (λ f. f.original_content) same))
        ∙ ap (λ f. text_with ms name f.original_content f.content) same
        ∙ rw elsewhere refl;
  }

  pub mutate_all-WasMutated :
      (ms : List Mutant) (fs fs' : FileSystem)
      → settled (mutate_all offsets_of ms fs) ≡ some fs'
      → (name : String) (after : ScriptFile) → fs' name ≡ some after
      → (before : ScriptFile) × (fs name ≡ some before) × WasMutated ms name before after
  unfolding mutate_all change_all
  mutate_all-WasMutated [] fs fs' h name after found = (
    after,
    ap (λ s. s name) (some_inj.0 h) ∙ found,
    record { original = refl; source = λ k. k; content = λ k. refl },
  )
  mutate_all-WasMutated (m ∷ ms) fs fs' h name after found =
      let (fs1, first, rest) =
        and_then-some (change_file (mutate offsets_of m) (node_of m) fs)
          (λ s. settled (mutate_all offsets_of ms s))
          (sym (settled-change_all (mutate offsets_of) m ms fs) ∙ h) in
      let (mid, there, w) = mutate_all-WasMutated ms fs1 fs' rest name after found in
      let (before, at_first, ch) =
        change_file-Changed (mutate offsets_of m) (node_of m) fs fs1 first name mid there in
      (before, at_first, WasMutated-step m ms name before mid after ch w)
