-- ===== src/Runloop/Poll/Masks.antt =====
-- src/runloop.c: the two translations between the program's event masks and libuv's.
use righack.Base.{ℕ, ◌*◌, ◌/◌, ◌%◌, ◌≡◌, false, arith}
use righack.External.{UvEvents}
use righack.Runloop.Poll.{events_of_uv, uv_of_events}

-- A mask that libuv reports comes back from the program's mask, less `UV_DISCONNECT`, which has no
-- counterpart.
uv_of_events-events_of_uv :
    (u : UvEvents) → uv_of_events (events_of_uv u) ≡ record u { disconnect = false }
unfolding uv_of_events events_of_uv
uv_of_events-events_of_uv u = ground arith

-- Of a mask of the program all but PEVENT_ERROR and what lies above the four bits comes back.
events_of_uv-uv_of_events : (e : ℕ) → events_of_uv (uv_of_events e) ≡ (e / 2) % 8 * 2
unfolding uv_of_events events_of_uv
events_of_uv-uv_of_events e = ground arith

-- The two translations invert each other: libuv's mask comes back less `UV_DISCONNECT`, which has no
-- counterpart, and a mask of the program less PEVENT_ERROR and what lies above its four bits.
pub masks-invert :
    ((u : UvEvents) → uv_of_events (events_of_uv u) ≡ record u { disconnect = false })
    × ((e : ℕ) → events_of_uv (uv_of_events e) ≡ (e / 2) % 8 * 2)
masks-invert = (uv_of_events-events_of_uv, events_of_uv-uv_of_events)
