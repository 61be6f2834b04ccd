-- ===== src/FleetSocket/Tests.antt =====
-- The fleet socket after a failed first attempt: frontend/src/hooks/useFleet.ts.
use rmm_rxf_sys_de.Base.{refl, true, false}
use rmm_rxf_sys_de.FleetSocket.{FleetSocket, attach, on_retry, on_open}
use rmm_rxf_sys_de.FleetSocket.Steps.{
  Reach, here, next, retried, opened, IsValid, fleet_socket-IsValid,
}

abbrev back : FleetSocket
back = on_open (on_retry false (attach true))

back-Reach : Reach (attach true) back
unfolding attach on_retry
back-Reach =
    next (next here (retried (attach true) false 2000 refl))
      (opened (on_retry false (attach true)) refl)

fleet_socket-IsValid_example : IsValid back
fleet_socket-IsValid_example = fleet_socket-IsValid back true back-Reach
