-- ===== src/Errors/Tests.antt =====
-- Runs of the error table, and its theorems at a small table.
use python_nss_ng.Prelude.{codes, some, List, [], ◌∷◌, ℤ, pos, negsuc, ◌≡◌, refl, arith}
use python_nss_ng.Errors.{
  NsprErrorDesc, init_nspr_errors, hit, lookup_nspr_error, search_table, test_ends, Nspr,
  get_error_desc,
}
use python_nss_ng.Errors.Search.{LookupOutcome, QsortLaws, lookup-init}

abbrev entry : ℤ → NsprErrorDesc
entry n = record { num = n; name = codes "NAME"; string = codes "text" }

abbrev sample : List NsprErrorDesc
sample = entry (negsuc 8191) ∷ entry (negsuc 5997) ∷ entry (negsuc 11) ∷ entry (pos 0) ∷ []

lookup_runs : lookup_nspr_error sample (negsuc 11) ≡ some (hit (entry (negsuc 11)))
unfolding lookup_nspr_error search_table test_ends
lookup_runs = refl

-- A table that is in order stays as it is.
abbrev keep_order : (NsprErrorDesc → NsprErrorDesc → ℤ) → List NsprErrorDesc → List NsprErrorDesc
keep_order cmp l = l

abbrev keep_order_laws : QsortLaws keep_order
keep_order_laws = record { keeps = λ cmp l e. ((λ h. h), λ h. h) }

lookup-init_example :
    LookupOutcome sample (pos 5) (lookup_nspr_error (init_nspr_errors keep_order sample).0 (pos 5))
unfolding init_nspr_errors
lookup-init_example = lookup-init keep_order keep_order_laws sample (pos 5) refl (omega arith)

abbrev quiet : Nspr
quiet = record {
  get_error = negsuc 5997;
  error_text = some (codes "why");
  decimal = λ n. codes "n";
}

asked_runs :
    (get_error_desc quiet sample (some (negsuc 0))) ≡ (codes "why (NAME) text", some (negsuc 5997))
unfolding get_error_desc lookup_nspr_error search_table test_ends
asked_runs = refl
