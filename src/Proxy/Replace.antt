-- ===== src/Proxy/Replace.antt =====
-- pftp/proxy.go: the data handler of a proxy is replaced (SetDataHandler, DestroyDataHandler).
use pftp.Base.{◌++◌, some, arith, ◌≡◌, true, false}
use pftp.Data.{DataHandler}
use pftp.Data.Close.{held, close-IsClosed}
use pftp.Proxy.{Proxy, set_data_handler, destroy_data_handler, is_data_handler_available}
use pftp.World.{Env, World}

module _ (env : Env) where
  -- A new data handler takes the place of an open one: what the old one held is closed once each,
  -- the transfer flag is cleared, and the new one is the proxy's own, available if it is not closed.
  pub set_data_handler-released :
      (p : Proxy) (old new : DataHandler) (w : World)
      → p.data_connector ≡ some old
      → old.closed ≡ false
      → new.closed ≡ false
      → (is_data_handler_available (set_data_handler env new p w).0 ≡ true)
        × (((set_data_handler env new p w).0.data_connector ≡ some new)
            × (((set_data_handler env new p w).1.events ≡ held old ++ w.events)
                × ((set_data_handler env new p w).1.in_data_transfer ≡ false)))
  unfolding set_data_handler destroy_data_handler is_data_handler_available
  set_data_handler-released p old new w hp ho hn =
      let closed = close-IsClosed env old w ho in
      let events = closed.events in let flag = closed.flag in ground arith
