-- ===== src/Busy/Tests.antt =====
-- Runs of `BusyStore` on a small file.
use chatgpt_mcp_clean.Base.{
  ℕ, ◌≡◌, refl, ◌∙◌, Bool, true, false, Option, none, some, [], ◌∷◌, Text, codes, text_eq, Table,
  lookup, text_lt, leb, arith,
}
use chatgpt_mcp_clean.Scope.{Host, canonical_scope, scope_code}
use chatgpt_mcp_clean.Scope.Canonical.{canonical_scope_idem}
use chatgpt_mcp_clean.Busy.Jobs.{as_record}
use chatgpt_mcp_clean.Busy.Claims.{Dates, Claim, ok, StoreFile, contents, Store, load}
use chatgpt_mcp_clean.Busy.Store.{
  renamed, rewritten, Env, granted, scope_already_claimed, claim, release, list, payload,
}
use chatgpt_mcp_clean.Busy.Reload.{IsSoundTable, IsApart, load-payload}
use chatgpt_mcp_clean.Busy.Passthrough.{IsPassthrough}
use chatgpt_mcp_clean.Busy.Pruning.{live}
use chatgpt_mcp_clean.Busy.Refresh.{written, Refreshed, refresh_lem}
use chatgpt_mcp_clean.Busy.Register.{claim_spec, release_spec}
use chatgpt_mcp_clean.Busy.Commit.{Implements, Starts}
use chatgpt_mcp_clean.Busy.Refinement.{claim_lem, release_lem}
use chatgpt_mcp_clean.Busy.Listing.{IsOrder, Lists, list-Lists}
use chatgpt_mcp_clean.Busy.Exclusion.{InLease, IsStable, Calls, done, then_list, claim-excludes}

abbrev posix : Host
posix = record { win32 = false; absolute_form = λ s. s }

abbrev parse_unit : Text → Option ℕ
parse_unit (t ∷ []) = some t
parse_unit _ = none

-- A time is written as one unit.
abbrev units : Dates
units = record { parse = parse_unit; iso = λ t. t ∷ []; parse-iso = λ t. refl }

abbrev later : Text → Text → Bool
later left right = text_lt right left

abbrev at : ℕ → Env
at now = record { now = now; unreadable = false; prune_write = renamed; commit_write = rewritten }

abbrev ada : Text
ada = codes "ada"

abbrev bob : Text
bob = codes "bob"

abbrev qualified : Text
qualified = codes " OrganicOverlords/Agents:docs"

abbrev agents : Text
agents = codes "agents:docs"

abbrev old_claim : Claim
old_claim = record { actor = ada; scope = codes "tools"; timestamp = 5 ∷ []; rest = [] }

abbrev new_claim : Claim
new_claim = record { actor = bob; scope = agents; timestamp = 200000 ∷ []; rest = [] }

abbrev two_claims : Table Claim
two_claims = (codes "tools", old_claim) ∷ (agents, new_claim) ∷ []

abbrev stale_store : Store
stale_store = record { claims = []; passthrough = []; file = contents (payload two_claims []) }

no_fields : IsApart []
no_fields = unfold lookup in record { actor = refl; scope = refl; timestamp = refl }

two_claims-IsSoundTable : IsSoundTable posix units two_claims
two_claims-IsSoundTable = record {
  entries = (
    record {
      keyed = refl;
      stable = unfold scope_code in refl;
      time = 5;
      dated = refl;
      apart = no_fields;
    },
    (
      record {
        keyed = refl;
        stable = unfold scope_code in refl;
        time = 200000;
        dated = refl;
        apart = no_fields;
      },
      tt,
    ),
  );
  distinct = unfold lookup text_eq in (refl, (refl, tt));
}

no_fields-IsPassthrough : IsPassthrough posix []
no_fields-IsPassthrough = unfold lookup as_record in record { jobs = tt; apart = refl }

stale_store-Starts : (now : ℕ) → Starts posix units (at now) two_claims [] stale_store
stale_store-Starts now = record {
  readable = refl;
  prunes = tt;
  commits = tt;
  sound = two_claims-IsSoundTable;
  fields = no_fields-IsPassthrough;
  holds = written refl;
}

load-payload_example :
    load posix units false stale_store
    ≡ ok (record stale_store { claims = two_claims; passthrough = [] })
load-payload_example =
    load-payload posix units stale_store two_claims [] two_claims-IsSoundTable
      (unfold lookup in refl) refl

refresh_lem_example : Refreshed posix units (at 240006) two_claims stale_store
refresh_lem_example =
    refresh_lem posix units (at 240006) stale_store two_claims [] refl tt two_claims-IsSoundTable
      no_fields-IsPassthrough (written refl)

qualified-IsStable : IsStable posix qualified
qualified-IsStable c = canonical_scope_idem posix qualified (unfold scope_code in refl)

claim_lem_example :
    Implements posix units (claim posix units (at 240006) ada qualified stale_store) (
      claim_spec posix units 240006 ada
        (canonical_scope posix qualified)
        (live units 240006 two_claims))
claim_lem_example =
    claim_lem posix units (at 240006) qualified ada stale_store two_claims [] qualified-IsStable
      (stale_store-Starts 240006)

release_lem_example :
    Implements posix units (release posix units (at 240006) bob qualified stale_store) (
      release_spec posix units 240006 bob
        (canonical_scope posix qualified)
        (live units 240006 two_claims))
release_lem_example =
    release_lem posix units (at 240006) qualified bob stale_store two_claims []
      (stale_store-Starts 240006)

text_lt_asym : (a b : Text) → text_lt a b ≡ true → text_lt b a ≡ false
unfolding text_lt
text_lt_asym [] [] h = ground (arith, h)
text_lt_asym [] (b ∷ ys) h = refl
text_lt_asym (a ∷ xs) [] h = ground (arith, h)
text_lt_asym (a ∷ xs) (b ∷ ys) h = ground (arith, h, text_lt_asym xs ys)

text_lt_chained : (a b c : Text) → text_lt b a ≡ false → text_lt c b ≡ false → text_lt c a ≡ false
unfolding text_lt
text_lt_chained [] [] [] h g = refl
text_lt_chained [] [] (c ∷ zs) h g = refl
text_lt_chained [] (b ∷ ys) [] h g = ground (arith, g)
text_lt_chained [] (b ∷ ys) (c ∷ zs) h g = refl
text_lt_chained (a ∷ xs) [] [] h g = ground (arith, h)
text_lt_chained (a ∷ xs) [] (c ∷ zs) h g = ground (arith, h)
text_lt_chained (a ∷ xs) (b ∷ ys) [] h g = ground (arith, g)
text_lt_chained (a ∷ xs) (b ∷ ys) (c ∷ zs) h g = ground (arith, h, g, text_lt_chained xs ys zs)

later-IsOrder : IsOrder later
later-IsOrder = record { one_way = λ a b. text_lt_asym b a; chained = text_lt_chained }

-- In the file, `tools` comes before `agents`.
list-Lists_example :
    Lists posix units later (live units 11 two_claims) (list posix units later (at 11) stale_store)
list-Lists_example =
    list-Lists posix units later (at 11) stale_store two_claims [] later-IsOrder
      (stale_store-Starts 11)

-- In another spelling, the scope is still taken, and the claim whose lease is over is gone.
qualified_taken :
    claim_spec posix units 240006 ada
      (canonical_scope posix qualified)
      (live units 240006 two_claims)
    ≡ (ok (scope_already_claimed new_claim), (agents, new_claim) ∷ [])
unfolding scope_code
qualified_taken = refl

canonical_scope_idem_example : canonical_scope posix agents ≡ some agents
canonical_scope_idem_example =
    canonical_scope_idem posix qualified (unfold scope_code in refl) (unfold scope_code in refl)

abbrev ui : Text
ui = codes "UI "

abbrev taken : Claim
taken = record { actor = ada; scope = codes "UI"; timestamp = 10 ∷ []; rest = [] }

ui-IsStable : IsStable posix ui
ui-IsStable c = canonical_scope_idem posix ui (unfold scope_code in refl)

ui_granted : (claim posix units (at 10) ada ui stale_store).0 ≡ ok (granted taken)
ui_granted =
    (claim_lem posix units (at 10) ui ada stale_store two_claims [] ui-IsStable
      (stale_store-Starts 10)).reply
    ∙ (unfold scope_code in refl)

in_lease : (now : ℕ) → leb 10 now ≡ true → leb 240010 now ≡ false → InLease 10 (at now)
in_lease now h g = record { readable = refl; prunes = tt; commits = tt; later = h; soon = g }

abbrev file_of : StoreFile → Store
file_of file = record { claims = []; passthrough = []; file = file }

abbrev listed : StoreFile → StoreFile
listed file = (list posix units later (at 11) (file_of file)).1.file

abbrev ui_file : StoreFile
ui_file = (claim posix units (at 10) ada ui stale_store).1.file

ui-Calls : Calls posix units later ada (codes "UI") 10 (listed ui_file) ui_file
ui-Calls = then_list (at 11) (file_of ui_file) refl (in_lease 11 refl refl) done

claim-excludes_example :
    (current : Claim) × ((claim posix units
        (at 9999)
        bob
        (codes " UI")
        (file_of (listed ui_file))).0
      ≡ ok (scope_already_claimed current))
    × (current.actor ≡ ada)
claim-excludes_example =
    claim-excludes posix units later ada ui taken (at 10) stale_store two_claims [] ui-IsStable
      (stale_store-Starts 10) ui_granted (listed ui_file) ui-Calls (at 9999) bob (codes " UI")
      (file_of (listed ui_file)) refl (in_lease 9999 refl refl) (unfold scope_code in refl)
      (unfold text_eq in refl)
