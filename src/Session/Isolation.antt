-- ===== src/Session/Isolation.antt =====
-- Connections do not disturb one another's sessions.
use socket_tester.Base.{◌≡◌, ◌≢◌, ◌∙◌, refl, List, [], ◌∷◌, Text, text_eq_iff, lookup, All, arith}
use socket_tester.Session.{Sessions}
use socket_tester.Session.Calls.{Call, step, run, subject, lookup-step}

pub lookup-step_other :
    (j : Text) (m : Sessions) (c : Call) → subject c ≢ j → lookup j (step m c) ≡ lookup j m
lookup-step_other j m c h = ground (arith, lookup-step j m c, text_eq_iff (subject c) j)

-- Whatever is called for other connections, in any order, the session of `j` is left as it was: its
-- status, counters, samples, topics and buffered messages.
pub lookup-run_other :
    (j : Text) (cs : List Call) (m : Sessions)
    → All (λ c. subject c ≢ j) cs
    → lookup j (run m cs) ≡ lookup j m
unfolding run
lookup-run_other j [] m h = refl
lookup-run_other j (c ∷ cs) m (p, h) =
    lookup-run_other j cs (step m c) h ∙ lookup-step_other j m c p
