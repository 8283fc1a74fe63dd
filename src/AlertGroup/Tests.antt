-- ===== src/AlertGroup/Tests.antt =====
-- Alert grouping on a concrete history.
use poddoctor.Prelude.{List, [], ◌∷◌, ◌≡◌, ◌+◌, refl, pos, length}
use poddoctor.Api.{sub}
use poddoctor.AlertGroup.{new, lookup, store, is_open, observe}
use poddoctor.AlertGroup.History.{
  Call, after, verdict, sent, folded, pending, occurrences, observe_conserves,
}
use poddoctor.AlertGroup.Window.{IsSpaced, sent-IsSpaced}

-- Two keys over a window of 100, newest call first.
abbrev history : List Call
history =
    record { key = "prod/OOMKilled"; at = 230 }
    ∷ record { key = "prod/OOMKilled"; at = 150 }
    ∷ record { key = "prod/OOMKilled"; at = 110 }
    ∷ record { key = "dev/BadCommand"; at = 60 }
    ∷ record { key = "prod/OOMKilled"; at = 50 }
    ∷ record { key = "prod/OOMKilled"; at = 10 }
    ∷ []

two_keys :
    (sent (pos 100) "prod/OOMKilled" history ≡ 230 ∷ 110 ∷ 10 ∷ [])
    × (folded (pos 100) "prod/OOMKilled" history ≡ 2)
unfolding sent folded verdict after new observe lookup store is_open sub
two_keys = (refl, refl)

observe_conserves_example :
    length (sent (pos 100) "prod/OOMKilled" history)
      + folded (pos 100) "prod/OOMKilled" history
      + pending "prod/OOMKilled" (after (pos 100) history)
    ≡ occurrences "prod/OOMKilled" history
observe_conserves_example = observe_conserves (pos 100) "prod/OOMKilled" history

sent-IsSpaced_example : IsSpaced (pos 100) (sent (pos 100) "prod/OOMKilled" history)
sent-IsSpaced_example = sent-IsSpaced (pos 100) "prod/OOMKilled" history
