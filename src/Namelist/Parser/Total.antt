-- ===== src/Namelist/Parser/Total.antt =====
-- scripts/lib/CIME/namelist.py: `parse` ends, and its position stays in the text.
use cime.Common.{
  ℕ, zero, suc, ◌≤◌, ◌<◌, [], Text, text, Bool, true, false, ◌≡◌, ◌≢◌, refl, arith, some, nat_eq,
  Result, ok, err, if◌then◌else◌,
}
use cime.Namelist.Parser.Cursor.{
  Exception, parse_error, failed_expect, name_error, value_error, index_error, Outcome, returned,
  eof, raised, stuck, Cursor, when◌then◌else◌,
}
use cime.Namelist.Parser.Groups.{
  Variables, Settings, assign, assign_groupless, parse_variables, open_group, parse_namelist_group,
  parse_groupless, next_group, parse_groups, first_group, parse_body, parse_namelist, parser_of,
  tabs_to_spaces, outcome_of, parse, no_settings,
}
use cime.Namelist.Parser.Leads.{
  left, EndsIn, EndsIn-Leads, Leads, leads, Leads-then_run, Leads-weaken, Leads-or_at_eof,
  Leads-when, Within, curr-Leads, advance-Leads,
}
use cime.Namelist.Parser.Skips.{eat_whitespace-Leads, Skipped-le}
use cime.Namelist.Parser.Reads.{parse_namelist_group_name-Leads, filled}
use cime.Namelist.Parser.Bounded.{Fewer, parse_name_and_values-Leads}

parse_variables-Leads :
    (fuel : ℕ) (group : Variables) (c : Cursor)
    → 1 ≤ left c
    → left c ≤ fuel
    → Leads (parse_variables fuel group c) (λ _ d. Within false (left c) d)
unfolding parse_variables
parse_variables-Leads zero group c more enough = absurd (omega arith)
parse_variables-Leads (suc fuel) group c more enough =
    Leads-then_run (curr-Leads c more) (λ a d same. rw same.0 (
      Leads-when _ _ _ (λ _. leads (more, omega arith))
        (λ _. Leads-then_run (parse_name_and_values-Leads false c more) (λ read e w.
          Leads-weaken
            (parse_variables-Leads fuel (assign read group) e w.0 (omega (arith, w.1, enough)))
            (λ _ f v. (v.0, omega (arith, v.1, w.1)))))))

open_group-Leads :
    (groupless : Bool) (group_name : Text) (settings : Settings) (c : Cursor)
    → Leads (open_group groupless group_name settings c) (λ _ d. d ≡ c)
unfolding open_group
open_group-Leads groupless group_name settings c =
    Leads-when _ _ _ (λ _. leads refl) (λ _. Leads-when _ _ _ (λ _. leads tt) (λ _. leads refl))

parse_namelist_group-Leads :
    (groupless : Bool) (settings : Settings) (c : Cursor)
    → 1 ≤ left c
    → Leads (parse_namelist_group groupless settings c) (λ _ d. Fewer false (left c) d)
unfolding parse_namelist_group
parse_namelist_group-Leads groupless settings c more =
    Leads-then_run (parse_namelist_group_name-Leads c more) (λ group_name d w.
      Leads-then_run (open_group-Leads groupless group_name settings d) (λ group e same. rw same (
        Leads-then_run (eat_whitespace-Leads false d w.0) (λ _ f v.
          Leads-then_run (parse_variables-Leads (suc (left f)) group f v.0 (omega arith))
            (λ variables g u. leads (u.0, omega (arith, u.1, Skipped-le v, w.1)))))))

next_group-Leads :
    (c : Cursor)
    → 1 ≤ left c
    → Leads (next_group c) (λ more d. (left d ≤ left c) × (more ≡ true → 1 ≤ left d))
unfolding next_group
next_group-Leads c some_left =
    Leads-or_at_eof
      (Leads-then_run (advance-Leads 1 false c) (λ _ d w.
        Leads-then_run (eat_whitespace-Leads true d w.1)
          (λ _ e v. leads (omega (arith, w.0, Skipped-le v), λ _. v.0))))
      (λ d at_end. leads (omega (arith, at_end), λ ended. cc))

parse_groups-Leads :
    (groupless : Bool) (fuel : ℕ) (settings : Settings) (c : Cursor)
    → 1 ≤ left c
    → left c ≤ fuel
    → Leads (parse_groups groupless fuel settings c) (λ _ d. left d ≤ left c)
unfolding parse_groups
parse_groups-Leads groupless zero settings c more enough = absurd (omega arith)
parse_groups-Leads groupless (suc fuel) settings c more enough =
    Leads-then_run (parse_namelist_group-Leads groupless settings c more) (λ read d w.
      Leads-then_run (next_group-Leads d w.0) (λ on e v.
        Leads-when _ _ _
          (λ is_on.
            Leads-weaken
              (parse_groups-Leads groupless fuel read e (v.1 is_on)
                (omega (arith, v.0, w.1, enough)))
              (λ _ f u. omega (arith, u, v.0, w.1)))
          (λ _. leads (omega (arith, v.0, w.1)))))

parse_groupless-Leads :
    (fuel : ℕ) (flat : Variables) (c : Cursor)
    → left c < fuel
    → Leads (parse_groupless fuel flat c) (λ _ d. left d ≤ left c)
unfolding parse_groupless
parse_groupless-Leads zero flat c enough = absurd (omega arith)
parse_groupless-Leads (suc fuel) flat c enough =
    Leads-when _ _ _ (λ _. leads (omega arith))
      (λ at_text.
        Leads-then_run
          (parse_name_and_values-Leads true c (filled true c.rest at_text (omega arith)))
          (λ read d w.
            Leads-weaken
              (parse_groupless-Leads fuel (assign_groupless read flat) d
                (omega (arith, w.1, enough)))
              (λ _ e v. omega (arith, v, w.1))))

first_group-Leads :
    (c : Cursor)
    → 1 ≤ left c
    → Leads (first_group c) (λ more d. (left d ≤ left c) × (more ≡ true → 1 ≤ left d))
unfolding first_group
first_group-Leads c some_left =
    Leads-or_at_eof
      (Leads-then_run (eat_whitespace-Leads true c some_left)
        (λ _ d w. leads (Skipped-le w, λ _. w.0)))
      (λ d at_end. leads (omega (arith, at_end), λ ended. cc))

parse_body-Leads :
    (groupless : Bool) (c : Cursor)
    → 1 ≤ left c
    → Leads (parse_body groupless c) (λ _ d. left d ≤ left c)
unfolding parse_body
parse_body-Leads groupless c more = Leads-then_run (curr-Leads c more) (λ a d same. rw same.0 (
    Leads-when _ _ _
      (λ _.
        Leads-then_run (parse_groupless-Leads (suc (left c)) [] c (omega arith))
          (λ flat e w. leads w))
      (λ _. parse_groups-Leads groupless (suc (left c)) no_settings c more (omega arith))))

-- From any position, the parser of files comes to its end: it returns, reports an unexpected end of
-- the file there, or raises an exception that is not an IndexError, and it never runs out of fuel.
pub parse_namelist-Leads :
    (groupless : Bool) (c : Cursor) → Leads (parse_namelist groupless c) (λ _ d. left d ≤ left c)
unfolding parse_namelist
parse_namelist-Leads groupless c =
    Leads-when _ _ _ (λ _. leads (omega arith))
      (λ at_text.
        Leads-then_run (first_group-Leads c (filled true c.rest at_text (omega arith))) (λ on d w.
          Leads-when _ _ _
            (λ is_on.
              Leads-weaken (parse_body-Leads groupless d (w.1 is_on))
                (λ _ e v. omega (arith, v, w.0)))
            (λ _. leads w.0)))

outcome_of-EndsIn :
    (n : ℕ) (outcome : Outcome Settings) (c : Cursor)
    → EndsIn (outcome, c) (λ _ d. left d ≤ n)
    → (result : Result Exception Settings) × (outcome_of outcome ≡ some result)
      × (result ≢ err index_error)
unfolding outcome_of
outcome_of-EndsIn n (returned settings) c done = (ok settings, refl, λ same. cc)
outcome_of-EndsIn n eof c done = (err failed_expect, refl, λ same. cc)
outcome_of-EndsIn n (raised parse_error) c done = (err failed_expect, refl, λ same. cc)
outcome_of-EndsIn n (raised failed_expect) c done = (err failed_expect, refl, λ same. cc)
outcome_of-EndsIn n (raised (name_error e)) c done = (err (name_error e), refl, λ same. cc)
outcome_of-EndsIn n (raised value_error) c done = (err value_error, refl, λ same. cc)
outcome_of-EndsIn n (raised index_error) c done = absurd done
outcome_of-EndsIn n stuck c done = absurd done

-- `parse` has a result on every text, with and without groups, and it is never an IndexError: the
-- loops of the parser end within the fuel they get, and no method reads behind the end of the text.
pub parse-total :
    (text : Text) (groupless convert_tab_to_space : Bool)
    → (result : Result Exception Settings) × (parse text groupless convert_tab_to_space
        ≡ some result)
      × (result ≢ err index_error)
unfolding parse
parse-total text groupless convert_tab_to_space =
    let start = parser_of (if convert_tab_to_space then tabs_to_spaces text else text) in
    let run = parse_namelist groupless start in
    outcome_of-EndsIn (left start) run.0 run.1 (EndsIn-Leads (parse_namelist-Leads groupless start))
