-- ===== src/Effect.antt =====
-- What an actor does to the outside while it handles a message. protoactor itself is not modelled:
-- a handler returns its calls of `ctx.Send`, `ctx.Respond`, `ctx.Forward` and the goroutines that
-- it starts, in the order in which it makes them. Logging leaves no trace.
use go2rtc_manager.Time.{Time, Duration}
use go2rtc_manager.Message.{Pid, Message}

pub data Effect : Type 0 where
  -- `ctx.Send(pid, msg)`, and `rootContext.Send(pid, msg)`
  send : Pid → Message → Effect
  -- a goroutine that sleeps, and then sends
  send_after : Duration → Pid → Message → Effect
  -- `ctx.Respond(msg)`
  respond : Message → Effect
  -- `ctx.Forward(pid)`: the message at hand, with its sender
  forward : Pid → Message → Effect

-- What `ctx` tells a handler, and what `time.Now()` returns meanwhile.
pub record Context : Type 0 where
  pub self : Pid
  pub parent : Pid
  pub now : Time
