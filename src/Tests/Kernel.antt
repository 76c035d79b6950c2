-- ===== src/Tests/Kernel.antt =====
-- A kernel over the in-memory store. Its world is the version of the situation and the events that
-- the bus has published.
use noema_agent_sdk.Common.{◌≡◌, refl, true, false, List, [], ◌∷◌, ◌++◌, ok}
use noema_agent_sdk.Common.Int.{ℤ, pos}
use noema_agent_sdk.Common.Dict.{lookup, insert}
use noema_agent_sdk.Event.{Event, with_sequence, sequence_or_zero}
use noema_agent_sdk.Store.Memory.{MemoryStore, empty, append}
use noema_agent_sdk.Store.Memory.Implements.{memory_event_store}
use noema_agent_sdk.Kernel.{
  Services, NoemaKernel, emit, ingest, commit, commit_started, append_event, react, project,
}
use noema_agent_sdk.Kernel.Echo.{echo_ignored}
use noema_agent_sdk.Tests.Fixtures.{event_one}

abbrev services : Services MemoryStore (ℤ × List Event)
services = record {
  store = memory_event_store;
  append_with_outbox = λ s e expected. (ok (append s e).0, (append s e).1);
  normalize = λ e. ok e;
  version = λ w. w.0;
  apply = λ e w. (ok tt, (sequence_or_zero e, w.1));
  rebuild = λ es w. (ok tt, w);
  publish = λ e w. (ok tt, (w.0, w.1 ++ e ∷ []));
  start_bus = λ w. w;
  stop_bus = λ w. w;
  close = λ s. s;
}

abbrev kernel : NoemaKernel MemoryStore (ℤ × List Event)
kernel = record {
  stored = empty;
  world = (pos 0, []);
  distributed = true;
  startup_sequence = pos 0;
  pending_broker_echoes = [];
  is_started = true;
  is_stopped = false;
}

abbrev stored_one : Event
stored_one = with_sequence event_one 1

abbrev emitted : NoemaKernel MemoryStore (ℤ × List Event)
emitted = record kernel {
  stored = (append empty event_one).1;
  world = (pos 1, stored_one ∷ []);
  pending_broker_echoes = "one" ∷ [];
}

echo_ignored_example :
    ingest services stored_one emitted
    ≡ (ok stored_one, record emitted { pending_broker_echoes = [] })
unfolding emit commit commit_started append_event react project append lookup insert with_sequence
echo_ignored_example =
    echo_ignored services event_one stored_one kernel emitted refl refl refl refl refl refl
