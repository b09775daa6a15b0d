-- ===== src/Order/Printing.antt =====
-- include/order.h: `operator<<` of an `Order` and of an `OrderCommand`.
use cpp_orderbook.Prelude.{◌++◌}
use cpp_orderbook.Texts.{Text, codes, Formats}
use cpp_orderbook.Order.{
  Order, OrderSide, buy, sell, CommandType, add, modify, cancels, shutdown, OrderCommand,
  get_updated_time,
}

abbrev pub side_to_string : OrderSide → Text
side_to_string buy = codes "BUY"
side_to_string sell = codes "SELL"

unfoldable pub print_order : Formats → Order → Text
print_order formats o =
    codes "Order(instrument="
    ++ codes o.instrument
    ++ codes ", id="
    ++ formats.to_string o.id
    ++ codes ", side="
    ++ side_to_string o.side
    ++ codes ", price="
    ++ formats.stream_price o.price
    ++ codes ", quantity="
    ++ formats.to_string o.quantity
    ++ codes ", updated_time="
    ++ formats.stream_time (get_updated_time o)
    ++ codes ")"

abbrev pub type_to_string : CommandType → Text
type_to_string add = codes "ADD"
type_to_string modify = codes "MODIFY"
type_to_string cancels = codes "CANCEL"
type_to_string shutdown = codes "SHUTDOWN"

unfoldable pub print_command : Formats → OrderCommand → Text
print_command formats cmd =
    codes "OrderCommand(type="
    ++ type_to_string cmd.type
    ++ codes ", order="
    ++ print_order formats cmd.order
    ++ codes ")"
