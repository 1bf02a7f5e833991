-- ===== src/Plugins/Closing.antt =====
-- `~Plugin_Manager`: the plugins are closed and the services removed. A plugin's `close` may throw;
-- what was called is logged.
use mathlib.Core.List.{append_assoc}
use dancex.Prelude.{
  List, [], ◌∷◌, ◌++◌, Bool, false, String, if◌then◌else◌, map, str_append, ◌≡◌, refl, ap, sym, ◌∙◌,
}
use dancex.Plugins.{PluginManager, Handler, Interceptor, Configurator}

pub data Closed (Any : Type 0) : Type 0 where
  handler : Handler Any → Closed Any
  interceptor : Interceptor Any → Closed Any
  configurator : Configurator → Closed Any
  directive : String → Closed Any

module _ {Any : Type 0} (throws : Closed Any → Bool) where
  -- One `try` block: the calls in order, up to the first one that throws.
  unfoldable pub call_each : List (Closed Any) → List (Closed Any)
  call_each [] = []
  call_each (c ∷ cs) = if throws c then c ∷ [] else c ∷ call_each cs

  unfoldable pub destroy : PluginManager Any → List (Closed Any)
  unfolding call_each
  destroy m =
      call_each (map (λ e. handler e.1) m.handler_map)
      ++ (call_each (map interceptor m.interceptors)
          ++ (call_each (map (λ e. configurator e.1) m.config_plugins)
              ++ call_each (map (λ s. directive (str_append "remove " s)) m.service_objects)))

  -- The directive that removes a service.
  abbrev pub removal : String → Closed Any
  removal svcobj = directive (str_append "remove " svcobj)

  call_each-all :
      (cs : List String)
      → ((svcobj : String) → throws (removal svcobj) ≡ false)
      → call_each (map removal cs) ≡ map removal cs
  unfolding call_each
  call_each-all [] h = refl
  call_each-all (c ∷ cs) h = rw (h c, call_each) (ap (◌∷◌ (removal c)) (call_each-all cs h))

  -- Where the service configurator does not throw, the destructor removes every service that was
  -- noted, in the order in which they were noted and behind the plugins, whatever the plugins
  -- throw.
  destroy-services :
      (m : PluginManager Any)
      → ((svcobj : String) → throws (removal svcobj) ≡ false)
      → (plugins : List (Closed Any)) × (destroy m ≡ plugins ++ map removal m.service_objects)
  unfolding destroy
  destroy-services m h =
      let hs = call_each (map (λ e. handler e.1) m.handler_map) in
      let is = call_each (map interceptor m.interceptors) in
      let cs = call_each (map (λ e. configurator e.1) m.config_plugins) in
      (
        hs ++ (is ++ cs),
        ap (λ r. hs ++ (is ++ (cs ++ r))) (call_each-all m.service_objects h)
            ∙ sym (append_assoc hs (is ++ cs) _ ∙ ap (◌++◌ hs) (append_assoc is cs _)),
      )
