-- ===== src/Config/Verdict.antt =====
-- `Validate` of config/config.go: the configurations for which it returns nil.
use Prim.Native.String
use text.Mathlib.TextLemmas.{append-eq-nil_iff, nil≢cons}
use mariadb_ctrl.Prelude.{
  ℕ, ◌+◌, String, ◌≡◌, ◌≢◌, ◌↔◌, sym, List, [], ◌∷◌, none, All, arith, eq_iff,
}
use mariadb_ctrl.Text.{sprintf, format_from, decimal}
use mariadb_ctrl.Config.{PreseededDatabase, Config}
use mariadb_ctrl.Config.Validate.{
  Fields, preseeded_fields, config_fields, ErrorMap, format_errors, format_error_string, add_errors,
  validate_databases, error_of, validate,
}

abbrev line : String → String × String → String
line pre (field_name, validation_message) =
    sprintf "%s%s : %s\n" (pre ∷ field_name ∷ validation_message ∷ [])

line-≢-empty : (pre : String) (e : String × String) → line pre e ≢ ""
unfolding sprintf format_from
line-≢-empty pre (a, b) h = nil≢cons (sym (append-eq-nil_iff.0 (append-eq-nil_iff.0 h).1).1)

format_errors-empty :
    (text : String) (errs : ErrorMap) (pre : String)
    → (format_errors text errs pre ≡ "") ↔ ((text ≡ "") × (errs ≡ []))
unfolding format_errors
format_errors-empty text [] pre = ground arith
format_errors-empty text (e ∷ errs) pre = (
  λ h. absurd (
      line-≢-empty pre e
        (append-eq-nil_iff.0
          ((format_errors-empty (String.◌++◌ text (sprintf "%s%s : %s\n" (pre ∷ e.0 ∷ e.1 ∷ [])))
              errs pre).0
            h).0).1),
  λ (p, q). cc,
)

add_errors-empty :
    (text : String) (errs : ErrorMap) (pre : String)
    → (add_errors text errs pre ≡ "") ↔ ((text ≡ "") × (errs ≡ []))
unfolding add_errors format_error_string
add_errors-empty text [] pre = ground arith
add_errors-empty text (e ∷ errs) pre = (
  λ h. absurd (cons_path ((format_errors-empty "" (e ∷ errs) pre).0 (append-eq-nil_iff.0 h).1).1),
  λ (p, q). absurd (cons_path q),
)
  where
    cons_path : (e ∷ errs) ≡ [] → ⊥
    cons_path h = cc

module _ (validator : Fields → ErrorMap) where
  abbrev pub AreValid : List PreseededDatabase → Type 0
  AreValid ds = All (λ d. validator (preseeded_fields d) ≡ []) ds

  databases-empty :
      (text : String) (i : ℕ) (ds : List PreseededDatabase)
      → (validate_databases validator text i ds ≡ "") ↔ ((text ≡ "") × AreValid ds)
  unfolding validate_databases
  databases-empty text i [] = ground arith
  databases-empty text i (d ∷ ds) = ground (
    arith,
    databases-empty
        (add_errors text (validator (preseeded_fields d))
          (sprintf "Db.PreseededDatabases[%d]." (decimal i ∷ [])))
        (i + 1) ds,
    add_errors-empty text (validator (preseeded_fields d))
        (sprintf "Db.PreseededDatabases[%d]." (decimal i ∷ [])),
  )

  error_of-none : (text : String) → (error_of validator text ≡ none) ↔ (text ≡ "")
  error_of-none text = ground (arith, eq_iff text "")

  -- A configuration is valid exactly when the validator finds nothing wrong with its fields nor with
  -- those of any preseeded database.
  pub validate-none_iff :
      (c : Config)
      → (validate validator c ≡ none)
        ↔ ((validator (config_fields c) ≡ []) × AreValid c.db.preseeded_databases)
  unfolding validate
  validate-none_iff c =
      let text = add_errors "" (validator (config_fields c)) "" in
      ground (
        arith,
        error_of-none (validate_databases validator text 0 c.db.preseeded_databases),
        databases-empty text 0 c.db.preseeded_databases,
        add_errors-empty "" (validator (config_fields c)) "",
      )
