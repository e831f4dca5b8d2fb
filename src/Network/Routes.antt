-- ===== src/Network/Routes.antt =====
-- src/network/network-condition.controller.ts: the routes of the simulated network.
use socket_tester.Base.{none, some, Text}
use socket_tester.Network.{
  NetworkCondition, PartialCondition, NetworkState, set_condition, get_condition, clear_condition,
}

-- `getCondition(id) ?? { active: false }`
pub data ConditionAnswer : Type 0 where
  inactive : ConditionAnswer
  condition : NetworkCondition → ConditionAnswer

unfoldable pub get_route : Text → NetworkState → ConditionAnswer
get_route id st = elim (get_condition id st) [ none ↦ inactive | some c ↦ condition c ]

unfoldable pub put_route : Text → PartialCondition → NetworkState → NetworkState × NetworkCondition
put_route id body st = set_condition id body st

-- The answer is `{ cleared: true }`.
unfoldable pub delete_route : Text → NetworkState → NetworkState
delete_route id st = clear_condition id st
