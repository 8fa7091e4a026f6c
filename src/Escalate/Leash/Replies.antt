-- ===== src/Escalate/Leash/Replies.antt =====
-- The lines that the leash of agent/escalate.py answers with.
use srechat.Prelude.{ℕ, ◌/◌, List, ◌++◌}
use srechat.Text.{codes, show, show_difference}

unfoldable pub duplicate : List ℕ → ℕ → ℕ → List ℕ
duplicate channel now told =
    codes "duplicate: same reason already sent by "
    ++ (channel ++ (codes " " ++ (show_difference now told ++ codes "s ago")))

unfoldable pub rate_limited : ℕ → List ℕ → ℕ → ℕ → List ℕ
rate_limited used channel window limit =
    codes "rate limited: "
    ++ (show used
        ++ (codes " "
            ++ (channel
                ++ (codes " in the last "
                    ++ (show (window / 60) ++ (codes "min (max " ++ (show limit ++ codes ")")))))))

unfoldable pub too_soon : List ℕ → ℕ → ℕ → List ℕ
too_soon channel wait gap =
    codes "too soon: another "
    ++ (channel
        ++ (codes " in " ++ (show wait ++ (codes "s (min gap " ++ (show gap ++ codes "s)")))))

unfoldable pub no_reason : List ℕ
no_reason = codes "escalation refused: say what is wrong — a page with no reason cannot be acted on"

unfoldable pub channel_suppressed : List ℕ → List ℕ → List ℕ
channel_suppressed channel why =
    channel
    ++ (codes " suppressed ("
        ++ (why ++ codes "). The human has already been told, or will be shortly."))

unfoldable pub channel_sent : List ℕ → List ℕ → List ℕ
channel_sent channel detail = channel ++ (codes " sent: " ++ detail)

unfoldable pub channel_failed : List ℕ → List ℕ → List ℕ
channel_failed channel detail = channel ++ (codes " FAILED: " ++ detail)
