-- ===== src/Tests/Streams.antt =====
-- A managed stream with a body of one byte.
use nwep_py.Prelude.{◌≡◌, refl, true, List, [], ◌∷◌}
use nwep_py.Sys.Exec.{World}
use nwep_py.Client.Driven.{new_client}
use nwep_py.Client.Stream.{Stream, new_stream}
use nwep_py.Runtime.StreamOwner.{Action, turn, recv, recv_cancelled, aclose, init, run}
use nwep_py.Runtime.StreamOwner.Body.{IsFaithful, stream-IsFaithful}
use nwep_py.Runtime.StreamOwner.Served.{IsServed}
use nwep_py.Runtime.StreamOwner.History.{received}
use nwep_py.Runtime.StreamOwner.Ending.{gone_is_shut}
use nwep_py.Tests.Quiet.{quiet}

abbrev opened : World Stream
opened = record { self = new_stream (new_client 7) 4; calls = [] }

abbrev day : List Action
day = recv ∷ turn ∷ turn ∷ recv_cancelled ∷ recv ∷ aclose ∷ []

stream-IsFaithful_example :
    IsFaithful quiet (run quiet day (init opened)) × IsServed (run quiet day (init opened))
unfolding received
stream-IsFaithful_example = stream-IsFaithful quiet day opened refl

gone_is_shut_example :
    ((run quiet day (init opened)).world.self.closed ≡ true)
    × ((run quiet day (init opened)).world.self.owner.closed ≡ true)
unfolding run
gone_is_shut_example = gone_is_shut quiet day opened refl
