-- ===== src/Agent/Host/Readings.antt =====
-- agent/sre_agent.py: `tool_sentry_issues`, `tool_tr_status` and `tool_replication_status`. Requests are
-- parameters, which raise what the `except` catches; `repr` prints a list, `_run` a command's output.
use srechat.Prelude.{
  ℕ, ◌-◌, Bool, ◌||◌, Option, none, some, List, [], ◌∷◌, ◌++◌, if◌then◌else◌, keep, map, take, drop,
  length, is_empty, Outcome, returned, raised,
}
use srechat.Text.{codes, join, show, text_eq}
use srechat.Chaos.{sort}
use srechat.Agent.Repair.{Region}
use srechat.Agent.Host.{sentry_issue_is_recent}

-- An issue of Sentry. A field that is missing is none, as is a `lastSeen` that is no time.
pub record Issue : Type 0 where
  pub count : Option (List ℕ)
  pub title : Option (List ℕ)
  pub permalink : Option (List ℕ)
  pub last_seen : Option ℕ

abbrev pub get : Option (List ℕ) → List ℕ → List ℕ
get none other = other
get (some text) other = text

abbrev pub issue_line : Issue → List ℕ
issue_line i =
    codes "["
    ++ (get i.count (codes "?")
        ++ (codes "x] "
            ++ (take 110 (get i.title (codes "?")) ++ (codes " — " ++ get i.permalink []))))

abbrev pub issues_reply : ℕ → Outcome (List Issue) → List ℕ
issues_reply now (raised exc) = codes "(Sentry query failed: " ++ (exc ++ codes ")")
issues_reply now (returned issues) =
    let recent = keep (λ (i : Issue). sentry_issue_is_recent i.last_seen now) issues in
    if is_empty recent
    then codes "No unresolved Sentry issues in the last 24h."
    else join (codes "\n") (map issue_line recent)

-- `answer` is the answer to the request, which is made if the token, the organisation and the project are set.
unfoldable pub tool_sentry_issues : List ℕ → List ℕ → List ℕ → ℕ → Outcome (List Issue) → List ℕ
unfolding sentry_issue_is_recent
tool_sentry_issues token org project now answer =
    if is_empty token || is_empty org || is_empty project
    then codes "Sentry is not configured for this agent. Set SENTRY_AUTH_TOKEN, "
      ++ codes "SENTRY_ORG, and SENTRY_PROJECT to enable it."
    else issues_reply now answer

abbrev pub probe_line : List ℕ → Outcome ℕ → List ℕ
probe_line name (returned status) = name ++ (codes ": HTTP " ++ show status)
probe_line name (raised exc) = name ++ (codes ": UNREACHABLE (" ++ (exc ++ codes ")"))

-- The answers of the gateway and of the site, and what gcloud prints.
unfoldable pub tool_tr_status : Outcome ℕ → Outcome ℕ → List ℕ → List ℕ
tool_tr_status gateway site described =
    join (codes "\n")
      (probe_line (codes "gateway") gateway ∷ probe_line (codes "site") site ∷ described ∷ [])

abbrev pub ends_with : List ℕ → List ℕ → Bool
ends_with suffix text = text_eq (drop (length text - length suffix) text) suffix

module _ {W : Type 0} (write : Region → List ℕ → W → Outcome (Unit {0}) × W)
    (read : Region → W → Outcome (List (List ℕ)) × W) (sleep : ℕ → W → W)
    (repr : List (List ℕ) → List ℕ) where
  abbrev pub probe_text : Region → ℕ → List ℕ
  probe_text r stamp = codes "probe-r" ++ (show r.index ++ (codes "-" ++ show stamp))

  -- The reply of a write that fails, which ends the tool.
  abbrev pub written : Region → Outcome (Unit {0}) × W → Option (List ℕ) × W → Option (List ℕ) × W
  written r (returned u, w) rest = rest
  written r (raised exc, w) rest =
      (some (codes "could not write to region " ++ (show r.index ++ (codes ": " ++ exc))), w)

  unfoldable pub write_probes : List Region → ℕ → W → Option (List ℕ) × W
  write_probes [] stamp w = (none, w)
  write_probes (r ∷ regions) stamp w =
      let wrote = write r (probe_text r stamp) w in
      written r wrote (write_probes regions stamp wrote.1)

  abbrev pub region_line : Region → ℕ → Outcome (List (List ℕ)) → List ℕ
  region_line r stamp (raised exc) =
      codes "  region " ++ (show r.index ++ (codes ": read failed (" ++ (exc ++ codes ")")))
  region_line r stamp (returned texts) =
      let seen = sort (keep (ends_with (show stamp)) texts) in
      codes "  region "
      ++ (show r.index
          ++ (codes " ("
              ++ (r.cloud
                  ++ (codes ") sees " ++ (show (length seen) ++ (codes "/3: " ++ repr seen))))))

  unfoldable pub read_probes : List Region → ℕ → W → List (List ℕ) × W
  unfolding sort
  read_probes [] stamp w = ([], w)
  read_probes (r ∷ regions) stamp w =
      let got = read r w in
      let rest = read_probes regions stamp got.1 in (region_line r stamp got.0 ∷ rest.0, rest.1)

  abbrev pub replication_reply : List Region → ℕ → Option (List ℕ) × W → List ℕ × W
  replication_reply regions stamp (some reply, w) = (reply, w)
  replication_reply regions stamp (none, w) =
      let got = read_probes regions stamp (sleep 6 w) in
      let first =
        codes "probe " ++ (show stamp ++ codes ": wrote one message in each region, waited 6s") in
      (join (codes "\n") (first ∷ got.0), got.1)

  unfoldable pub tool_replication_status : List Region → ℕ → W → List ℕ × W
  unfolding read_probes write_probes
  tool_replication_status regions stamp w =
      replication_reply regions stamp (write_probes regions stamp w)
