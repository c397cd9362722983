-- ===== src/Session/Stub.antt =====
-- internal/session/stub_other.go: no session layer on other platforms.
use lockping_agent.Prelude.{Bytes, codes, Result, err}
use lockping_agent.Session.{Controller}

-- `ErrUnsupported`, of session.go.
abbrev pub err_unsupported : Bytes
err_unsupported = codes "session: platform not supported yet"

-- `New`
abbrev pub new : {S : Type 0} → Result (Controller S)
new = err err_unsupported
