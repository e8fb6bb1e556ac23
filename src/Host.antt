-- ===== src/Host.antt =====
-- support/host/health.go of both services: what is told to systemd.
--
-- The variable of the environment is an argument; whether a socket can be dialled and a datagram
-- written to it is a parameter.
use bondster_bco.Base.{Bool, Option, none, some, [], if◌then◌else◌}
use bondster_bco.Base.Text.{Bytes, codes, str_eq}

-- A datagram: the name of the socket, and the text.
abbrev pub Datagram : Type 0
Datagram = Bytes × Bytes

module _ (dials : Bytes → Bool) (writes : Bytes → Bytes → Bool) where
  -- `systemNotify`: the datagram that is sent, none where an error is returned. A variable that is
  -- not there reads as the empty text.
  unfoldable pub system_notify : Bytes → Bytes → Option Datagram
  system_notify name state =
      if str_eq name []
      then none
      else if dials name
      then (if writes name state then some (name, state) else none)
      else none

  unfoldable pub notify_service_ready : Bytes → Option Datagram
  unfolding system_notify
  notify_service_ready name = system_notify name (codes "READY=1")

  unfoldable pub notify_service_stopping : Bytes → Option Datagram
  unfolding system_notify
  notify_service_stopping name = system_notify name (codes "STOPPING=1")
