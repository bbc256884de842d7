-- ===== src/Usb/Table.antt =====
-- The table of drivers and the table of handhelds of jornada/usb_profiles.py.
use Prim.Native.String.{String}
use Prim.Native.String as Text
use jornada_link.Common.{ℕ, true, false, none, some, List, [], ◌∷◌}
use jornada_link.Usb.{
  UsbDriverProfile, HandheldModel, serial_bridge, wince_usb_sync, built_in, vendor_extension,
  no_driver, no_client, sa1110_udc, sh3, arm,
}

abbrev pub ftdi : ℕ → String → String → String → String → UsbDriverProfile
ftdi pid key name chip notes = record {
  key = key;
  vendor_id = some 0x0403;
  product_id = some pid;
  name = name;
  chip = chip;
  role = serial_bridge;
  macos_driver = built_in;
  driver_name = "AppleUSBFTDI";
  notes = notes;
}

abbrev pub prolific : ℕ → String → String → String → String → UsbDriverProfile
prolific pid key name chip notes = record {
  key = key;
  vendor_id = some 0x067B;
  product_id = some pid;
  name = name;
  chip = chip;
  role = serial_bridge;
  macos_driver = vendor_extension;
  driver_name = "Prolific PL2303 DriverKit extension";
  notes = notes;
}

abbrev pub silabs : ℕ → String → String → String → UsbDriverProfile
silabs pid key name chip = record {
  key = key;
  vendor_id = some 0x10C4;
  product_id = some pid;
  name = name;
  chip = chip;
  role = serial_bridge;
  macos_driver = built_in;
  driver_name = "AppleUSBSLCOM";
  notes = "Older macOS releases need Silicon Labs' VCP driver instead.";
}

abbrev pub wch : ℕ → String → String → String → UsbDriverProfile
wch pid key name chip = record {
  key = key;
  vendor_id = some 0x1A86;
  product_id = some pid;
  name = name;
  chip = chip;
  role = serial_bridge;
  macos_driver = vendor_extension;
  driver_name = "WCH CH34x VCP driver";
  notes = "Recent macOS releases may bind a built-in driver; otherwise install WCH's.";
}

-- `hex` is the product in four hexadecimal digits, as the source formats it.
abbrev pub hp_sync : ℕ → String → UsbDriverProfile
hp_sync pid hex = record {
  key = Text.◌++◌ "hp-usb-sync-" hex;
  vendor_id = some 0x03F0;
  product_id = some pid;
  name = Text.◌++◌ (Text.◌++◌ "HP USB Sync (product " hex) ")";
  chip = "SA-1110 UDC or Pocket PC USB function";
  role = wince_usb_sync;
  macos_driver = no_driver;
  driver_name = "wceusbsh.sys (Windows) / ipaq (Linux)";
  notes =
      "Listed in Microsoft's wceusbsh.inf and the Linux ipaq driver; the Jornada 720/728 cradle and the 540/560 Pocket PCs enumerate as one of these.";
}

abbrev pub wince_sync : ℕ → ℕ → String → String → UsbDriverProfile
wince_sync vid pid key name = record {
  key = key;
  vendor_id = some vid;
  product_id = some pid;
  name = name;
  chip = "Windows CE USB function";
  role = wince_usb_sync;
  macos_driver = no_driver;
  driver_name = "wceusbsh.sys (Windows) / ipaq (Linux)";
  notes = "Listed in Microsoft's wceusbsh.inf and the Linux ipaq driver.";
}

abbrev pub cdc_acm_profile : UsbDriverProfile
cdc_acm_profile = record {
  key = "usb-cdc-acm";
  vendor_id = none;
  product_id = none;
  name = "USB CDC-ACM serial function";
  chip = "CDC-ACM";
  role = serial_bridge;
  macos_driver = built_in;
  driver_name = "AppleUSBACM";
  notes = "Class-compliant; matched by interface class, not vendor/product.";
}

abbrev pub driver_profiles : List UsbDriverProfile
driver_profiles =
    ftdi 0x6001 "ftdi-ft232r" "FTDI FT232R / FT232BM / FT245" "FT232R"
      "The adapter jornada-link was developed and tested with."
    ∷ ftdi 0x6015 "ftdi-ft-x" "FTDI FT231X / FT230X / FT234XD" "FT-X" ""
    ∷ ftdi 0x6010 "ftdi-ft2232" "FTDI FT2232C/D/H (two ports)" "FT2232" ""
    ∷ ftdi 0x6011 "ftdi-ft4232h" "FTDI FT4232H (four ports)" "FT4232H" ""
    ∷ ftdi 0x6014 "ftdi-ft232h" "FTDI FT232H" "FT232H" ""
    ∷ prolific 0x2303 "prolific-pl2303" "Prolific PL2303 (HX/HXD/TA/TB and clones)" "PL2303"
        "Prolific's current driver refuses counterfeit and end-of-life HXA/XA parts."
    ∷ prolific 0x23A3 "prolific-pl2303gc" "Prolific PL2303GC" "PL2303GC" ""
    ∷ prolific 0x23B3 "prolific-pl2303gb" "Prolific PL2303GB" "PL2303GB" ""
    ∷ prolific 0x23C3 "prolific-pl2303gt" "Prolific PL2303GT" "PL2303GT" ""
    ∷ prolific 0x23D3 "prolific-pl2303gl" "Prolific PL2303GL" "PL2303GL" ""
    ∷ prolific 0x23E3 "prolific-pl2303ge" "Prolific PL2303GE" "PL2303GE" ""
    ∷ prolific 0x23F3 "prolific-pl2303gs" "Prolific PL2303GS" "PL2303GS" ""
    ∷ silabs 0xEA60 "silabs-cp210x" "Silicon Labs CP2102 / CP2102N / CP2104" "CP210x"
    ∷ silabs 0xEA70 "silabs-cp2105" "Silicon Labs CP2105 (two ports)" "CP2105"
    ∷ silabs 0xEA71 "silabs-cp2108" "Silicon Labs CP2108 (four ports)" "CP2108"
    ∷ wch 0x7523 "wch-ch340" "WCH CH340 / CH340G / CH340C" "CH340"
    ∷ wch 0x5523 "wch-ch341" "WCH CH341 (serial mode)" "CH341"
    ∷ wch 0x55D4 "wch-ch9102" "WCH CH9102" "CH9102"
    ∷ hp_sync 0x1016 "1016"
    ∷ hp_sync 0x1116 "1116"
    ∷ hp_sync 0x1216 "1216"
    ∷ hp_sync 0x2016 "2016"
    ∷ hp_sync 0x2116 "2116"
    ∷ hp_sync 0x2216 "2216"
    ∷ hp_sync 0x3016 "3016"
    ∷ hp_sync 0x3116 "3116"
    ∷ hp_sync 0x3216 "3216"
    ∷ hp_sync 0x4016 "4016"
    ∷ hp_sync 0x4116 "4116"
    ∷ hp_sync 0x4216 "4216"
    ∷ hp_sync 0x5016 "5016"
    ∷ hp_sync 0x5116 "5116"
    ∷ hp_sync 0x5216 "5216"
    ∷ wince_sync 0x49F 3 "compaq-ipaq-sync" "Compaq iPAQ USB Sync"
    ∷ wince_sync 0x45E 0xCE "microsoft-wince-sync" "Microsoft Windows CE USB Sync"
    ∷ wince_sync 0xBB4 0xCE "htc-wince-sync" "HTC Windows CE USB Sync"
    ∷ []

abbrev sh3_note : String
sh3_note =
    "Hitachi SH7709A + HD64461 companion chip: no USB device controller on the board, so the dock's USB-B jack carries nothing for this model. Serial (RS-232) only."

abbrev arm_note : String
arm_note =
    "StrongARM SA-1110 with an integrated USB device controller (UDC); enumerates on the dock's USB-B jack as a Windows CE USB Sync device."

abbrev pub handheld_models : List HandheldModel
handheld_models =
    record {
      key = "jornada-680";
      name = "HP Jornada 680";
      cpu = "Hitachi SH7709A (SH-3) 133 MHz";
      architecture = sh3;
      os = "Windows CE 2.11 / H/PC Pro 3.0";
      usb_client = no_client;
      dock_usb = false;
      notes = sh3_note;
    }
    ∷ record {
      key = "jornada-680e";
      name = "HP Jornada 680e";
      cpu = "Hitachi SH7709A (SH-3) 133 MHz";
      architecture = sh3;
      os = "Windows CE 2.11 / H/PC Pro 3.0";
      usb_client = no_client;
      dock_usb = false;
      notes = sh3_note;
    }
    ∷ record {
      key = "jornada-690";
      name = "HP Jornada 690";
      cpu = "Hitachi SH7709A (SH-3) 133 MHz";
      architecture = sh3;
      os = "Windows CE 2.11 / H/PC Pro 3.01";
      usb_client = no_client;
      dock_usb = false;
      notes = sh3_note;
    }
    ∷ record {
      key = "jornada-690e";
      name = "HP Jornada 690e";
      cpu = "Hitachi SH7709A (SH-3) 133 MHz";
      architecture = sh3;
      os = "Windows CE 2.11 / H/PC Pro 3.01";
      usb_client = no_client;
      dock_usb = false;
      notes = sh3_note;
    }
    ∷ record {
      key = "jornada-710";
      name = "HP Jornada 710";
      cpu = "Intel StrongARM SA-1110 206 MHz";
      architecture = arm;
      os = "Windows CE 3.0 / H/PC 2000";
      usb_client = sa1110_udc;
      dock_usb = true;
      notes = arm_note;
    }
    ∷ record {
      key = "jornada-720";
      name = "HP Jornada 720";
      cpu = "Intel StrongARM SA-1110 206 MHz";
      architecture = arm;
      os = "Windows CE 3.0 / H/PC 2000";
      usb_client = sa1110_udc;
      dock_usb = true;
      notes = arm_note;
    }
    ∷ record {
      key = "jornada-728";
      name = "HP Jornada 728";
      cpu = "Intel StrongARM SA-1110 206 MHz";
      architecture = arm;
      os = "Windows CE 3.0 / H/PC 2000";
      usb_client = sa1110_udc;
      dock_usb = true;
      notes = arm_note;
    }
    ∷ record {
      key = "sh3-hpc-pro-family";
      name = "SH3 Handheld PC Pro (Jornada 680/680e/690/690e)";
      cpu = "Hitachi SH7709A (SH-3) 133 MHz";
      architecture = sh3;
      os = "Windows CE 2.11 / H/PC Pro 3.x";
      usb_client = no_client;
      dock_usb = false;
      notes = sh3_note;
    }
    ∷ record {
      key = "sa1110-hpc2000-family";
      name = "StrongARM Handheld PC 2000 (Jornada 710/720/728)";
      cpu = "Intel StrongARM SA-1110 206 MHz";
      architecture = arm;
      os = "Windows CE 3.0 / H/PC 2000";
      usb_client = sa1110_udc;
      dock_usb = true;
      notes = arm_note;
    }
    ∷ []
