-- ===== src/Autostart/Other.antt =====
-- internal/autostart/autostart_other.go: no autostart on other platforms.
use lockping_agent.Prelude.{false, none}
use lockping_agent.Autostart.{Manager}

-- The state is left alone.
abbrev pub unsupported : {A : Type 0} → Manager A
unsupported = record {
  status = λ a. (false, false);
  enable = λ a. (a, none);
  disable = λ a. (a, none);
}
